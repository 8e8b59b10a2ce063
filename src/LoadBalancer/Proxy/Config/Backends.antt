-- ===== src/LoadBalancer/Proxy/Config/Backends.antt =====
-- Which endpoints stand behind a listener.
use cloud_provider_kind.Base.{
  String, string_eq, Bool-cases, ◌≡◌, refl, arith, true, List, [], ◌∷◌, ◌⊎◌, ◌↔◌, inl, inr, In,
  In-append, In-append_left, In-append_right,
}
use cloud_provider_kind.Api.{SpecPort, Node, NodeAddress}
use cloud_provider_kind.World.{Net}
use cloud_provider_kind.LoadBalancer.Proxy.Config.{
  Endpoint, is_backend, endpoint_at, node_backends, backends, service_port,
}

-- An internal address that is of the service's family, as far as `net` tells its family.
pub record IsInternal (net : Net) (f : String) (addr : NodeAddress) : Type 0 where
  pub internal : addr.kind ≡ "InternalIP"
  pub ipv4 : net.is_ipv4_string addr.address ≡ true → f ≡ "IPv4"
  pub ipv6 : net.is_ipv6_string addr.address ≡ true → f ≡ "IPv6"

module _ (net : Net) (f : String) where
  IsInternal-of_is_backend :
      (addr : NodeAddress) → is_backend net f addr ≡ true → IsInternal net f addr
  IsInternal-of_is_backend addr h = record {
    internal = ground arith;
    ipv4 = λ v. ground arith;
    ipv6 = λ v. ground arith;
  }

  is_backend_of_IsInternal :
      (addr : NodeAddress) → IsInternal net f addr → is_backend net f addr ≡ true
  is_backend_of_IsInternal addr h = ground arith

  module _ (port : SpecPort) where
    -- An address among those given that the endpoint `e` is made of.
    abbrev FromAddress : Endpoint → List NodeAddress → Type 0
    FromAddress e addrs =
        (addr : NodeAddress) × In addr addrs
        × IsInternal net f addr
        × (e ≡ endpoint_at net port addr)

    node_backends_sound :
        (e : Endpoint) (addrs : List NodeAddress) (found : List Endpoint)
        → In e (node_backends net f port addrs found)
        → In e found ⊎ FromAddress e addrs
    unfolding node_backends
    node_backends_sound e [] found m = inl m
    node_backends_sound e (addr ∷ addrs) found m = elim (Bool-cases (is_backend net f addr)) [
      | inl b ↦ elim (node_backends_sound e addrs _ (rw b at m)) [
        | inl old ↦ elim (In-append e found _ old) [
          | inl older ↦ inl older
          | inr new ↦ inr (addr, inl refl, IsInternal-of_is_backend addr b, last e _ new)
        ]
        | inr (a, am, i, v) ↦ inr (a, inr am, i, v)
      ]
      | inr b ↦ elim (node_backends_sound e addrs found (rw b at m)) [
        | inl old ↦ inl old
        | inr (a, am, i, v) ↦ inr (a, inr am, i, v)
      ]
    ]
      where
        last : (e x : Endpoint) → In e (x ∷ []) → e ≡ x
        last e x (inl p) = p
        last e x (inr p) = elim p [ ]

    node_backends-keep :
        (e : Endpoint) (addrs : List NodeAddress) (found : List Endpoint)
        → In e found
        → In e (node_backends net f port addrs found)
    unfolding node_backends
    node_backends-keep e [] found m = m
    node_backends-keep e (addr ∷ addrs) found m = elim (Bool-cases (is_backend net f addr)) [
      | inl b ↦ rw b (node_backends-keep e addrs _ (In-append_left e found _ m))
      | inr b ↦ rw b (node_backends-keep e addrs found m)
    ]

    node_backends_complete :
        (addr : NodeAddress) (addrs : List NodeAddress) (found : List Endpoint)
        → In addr addrs
        → IsInternal net f addr
        → In (endpoint_at net port addr) (node_backends net f port addrs found)
    unfolding node_backends
    node_backends_complete addr [] found m i = elim m [ ]
    node_backends_complete addr (a ∷ addrs) found (inl p) i =
        rw (is_backend_of_IsInternal a (rw (← p) i), p)
          (node_backends-keep _ addrs _ (In-append_right _ found _ (inl refl)))
    node_backends_complete addr (a ∷ addrs) found (inr m) i =
        node_backends_complete addr addrs _ m i

    -- A node among those given, and an address of it.
    abbrev FromNode : Endpoint → List Node → Type 0
    FromNode e nodes = (n : Node) × In n nodes × FromAddress e n.addresses

    backends_sound :
        (e : Endpoint) (nodes : List Node) (found : List Endpoint)
        → In e (backends net f port nodes found)
        → In e found ⊎ FromNode e nodes
    unfolding backends
    backends_sound e [] found m = inl m
    backends_sound e (n ∷ nodes) found m = elim (backends_sound e nodes _ m) [
      | inl old ↦ elim (node_backends_sound e n.addresses found old) [
        | inl older ↦ inl older
        | inr new ↦ inr (n, inl refl, new)
      ]
      | inr (k, km, new) ↦ inr (k, inr km, new)
    ]

    backends-keep :
        (e : Endpoint) (nodes : List Node) (found : List Endpoint)
        → In e found
        → In e (backends net f port nodes found)
    unfolding backends
    backends-keep e [] found m = m
    backends-keep e (n ∷ nodes) found m =
        backends-keep e nodes _ (node_backends-keep e n.addresses found m)

    backends_complete :
        (addr : NodeAddress) (n : Node) (nodes : List Node) (found : List Endpoint)
        → In n nodes
        → In addr n.addresses
        → IsInternal net f addr
        → In (endpoint_at net port addr) (backends net f port nodes found)
    unfolding backends
    backends_complete addr n [] found m am i = elim m [ ]
    backends_complete addr n (k ∷ nodes) found (inl p) am i =
        backends-keep _ nodes _ (node_backends_complete addr k.addresses found (rw p at am) i)
    backends_complete addr n (k ∷ nodes) found (inr m) am i =
        backends_complete addr n nodes _ m am i

-- The endpoints behind a listener are exactly the internal addresses of the given nodes that are
-- not of a family other than the listener's, each with the node port and the protocol of the
-- service's port.
pub cluster_iff :
    (net : Net) (f : String) (port : SpecPort) (nodes : List Node) (e : Endpoint)
    → In e (service_port net f port nodes).cluster ↔ (
        (n : Node) × In n nodes
        × ((addr : NodeAddress) × In addr n.addresses
            × IsInternal net f addr
            × (e ≡ record {
              address = addr.address;
              port = port.node_port;
              protocol = port.protocol;
            })))
unfolding service_port
cluster_iff net f port nodes e = (to, from)
  where
    to : In e (backends net f port nodes []) → FromNode net f port e nodes
    to m = elim (backends_sound net f port e nodes [] m) [ inl old ↦ absurd old | inr new ↦ new ]

    from : FromNode net f port e nodes → In e (backends net f port nodes [])
    from (n, m, (addr, am, i, v)) = rw v (backends_complete net f port addr n nodes [] m am i)
