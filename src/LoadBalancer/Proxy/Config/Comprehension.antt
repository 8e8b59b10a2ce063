-- ===== src/LoadBalancer/Proxy/Config/Comprehension.antt =====
-- `generateConfig` without its loops: the listeners as pairs, the endpoints and the source ranges
-- as comprehensions over the service and the nodes.
use mathlib.Core.List.{flat_map, filter_map}
use cloud_provider_kind.Base.{
  String, ◌<>◌, ◌≡◌, refl, sym, ap, ◌∙◌, arith, if◌then◌else◌, ◌==◌, string_eq, Bool, not, ◌&&◌,
  ◌||◌, Option, none, some, Bool-cases, Option-cases, List, [], ◌∷◌, ◌++◌, inl, inr, append-nil,
  append_assoc,
}
use cloud_provider_kind.Base.Decimal.{itoa}
use cloud_provider_kind.Base.Dict
use cloud_provider_kind.Base.Dict.{Dict}
use cloud_provider_kind.Base.Text.{trim_space}
use cloud_provider_kind.Api.{Service, SpecPort, Node, NodeAddress}
use cloud_provider_kind.World.{Net}
use cloud_provider_kind.LoadBalancer.Proxy.Config.{
  Endpoint, ServicePort, SourceRange, ProxyConfigData, key_of, is_backend, endpoint_at,
  node_backends, backends, service_port, add_ports, add_families, add_source_ranges,
  health_check_port, config_data,
}

-- The protocols that are load balanced.
abbrev pub is_transport : SpecPort → Bool
is_transport port = port.protocol == "TCP" || port.protocol == "UDP"

-- The name of the listener of a family and a port, and of its cluster.
abbrev pub promised_key : String → SpecPort → String
promised_key f port = f <> ("_" <> (itoa port.port <> ("_" <> port.protocol)))

module _ (net : Net) where
  -- An internal address that is not known to be of another family.
  abbrev pub is_internal : String → NodeAddress → Bool
  is_internal f addr =
      addr.kind == "InternalIP"
      && (not (net.is_ipv4_string addr.address) || f == "IPv4")
      && (not (net.is_ipv6_string addr.address) || f == "IPv6")

  abbrev pub endpoint_of : String → SpecPort → NodeAddress → Option Endpoint
  endpoint_of f port addr =
      if is_internal f addr
      then some (record { address = addr.address; port = port.node_port; protocol = port.protocol })
      else none

  -- The endpoints of a listener, in the order of the nodes and of their addresses.
  abbrev pub endpoints : String → SpecPort → List Node → List Endpoint
  endpoints f port nodes = flat_map (λ n. filter_map (endpoint_of f port) n.addresses) nodes

  -- The listener of a family and a port: on all addresses of the family, at the port.
  abbrev pub promised : String → List Node → SpecPort → ServicePort
  promised f nodes port = record {
    listener = record {
      address = if f == "IPv6" then "\"::\"" else "0.0.0.0";
      port = port.port;
      protocol = port.protocol;
    };
    cluster = endpoints f port nodes;
  }

  -- A port of a service as a key and a listener, if its protocol is TCP or UDP.
  abbrev pub listener_of : String → List Node → SpecPort → Option (String × ServicePort)
  listener_of f nodes port =
      if is_transport port then some (promised_key f port, promised f nodes port) else none

  abbrev pub range_of : String → Option SourceRange
  range_of sr = elim (net.parse_cidr (trim_space sr)) [
    | none ↦ none
    | some (prefix, length) ↦ some (record { prefix = prefix; length = length })
  ]

-- The map after the pairs are written to it in turn.
unfoldable pub written : List (String × ServicePort) → Dict ServicePort → Dict ServicePort
written [] d = d
written ((k, v) ∷ pairs) d = written pairs (Dict.insert k v d)

-- The configuration, without loops.
abbrev pub reference : Net → Service → List Node → ProxyConfigData
reference net service nodes = record {
  health_check_port =
      if service.external_traffic_policy == "Local" then service.health_check_node_port else 10256;
  service_ports =
      written
        (flat_map (λ f. filter_map (listener_of net f nodes) service.ports) service.ip_families) [];
  session_affinity = service.session_affinity;
  source_ranges = filter_map (range_of net) service.load_balancer_source_ranges;
}

module _ (net : Net) where
  is_internal_lem :
      (f : String) (addr : NodeAddress) → is_backend net f addr ≡ is_internal net f addr
  is_internal_lem f addr = ground arith

  node_backends_lem :
      (f : String) (port : SpecPort) (addrs : List NodeAddress) (found : List Endpoint)
      → node_backends net f port addrs found ≡ found ++ filter_map (endpoint_of net f port) addrs
  unfolding node_backends filter_map
  node_backends_lem f port [] found = sym (append-nil found)
  node_backends_lem f port (addr ∷ addrs) found =
      let law = is_internal_lem f addr in
      elim (Bool-cases (is_internal net f addr)) [
        | inl b ↦
            rw (law, b)
              (node_backends_lem f port addrs (found ++ endpoint_at net port addr ∷ [])
                ∙ append_assoc found (endpoint_at net port addr ∷ []) _)
        | inr b ↦ rw (law, b) (node_backends_lem f port addrs found)
      ]

  pub backends_lem :
      (f : String) (port : SpecPort) (nodes : List Node) (found : List Endpoint)
      → backends net f port nodes found ≡ found ++ endpoints net f port nodes
  unfolding backends flat_map
  backends_lem f port [] found = sym (append-nil found)
  backends_lem f port (n ∷ nodes) found =
      backends_lem f port nodes (node_backends net f port n.addresses found)
      ∙ ap (λ l. l ++ endpoints net f port nodes) (node_backends_lem f port n.addresses found)
      ∙ append_assoc found (filter_map (endpoint_of net f port) n.addresses) _

  add_ports_lem :
      (f : String) (ports : List SpecPort) (nodes : List Node) (d : Dict ServicePort)
      → add_ports net f ports nodes d ≡ written (filter_map (listener_of net f nodes) ports) d
  unfolding add_ports filter_map written service_port key_of
  add_ports_lem f [] nodes d = refl
  add_ports_lem f (p ∷ ports) nodes d = elim (Bool-cases (is_transport p)) [
    | inl b ↦ rw (b, backends_lem f p nodes []) (add_ports_lem f ports nodes _)
    | inr b ↦ rw b (add_ports_lem f ports nodes d)
  ]

  written-append :
      (xs ys : List (String × ServicePort)) (d : Dict ServicePort)
      → written (xs ++ ys) d ≡ written ys (written xs d)
  unfolding written
  written-append [] ys d = refl
  written-append ((k, v) ∷ xs) ys d = written-append xs ys (Dict.insert k v d)

  add_families_lem :
      (families : List String) (ports : List SpecPort) (nodes : List Node) (d : Dict ServicePort)
      → add_families net families ports nodes d
        ≡ written (flat_map (λ f. filter_map (listener_of net f nodes) ports) families) d
  unfolding add_families flat_map written
  add_families_lem [] ports nodes d = refl
  add_families_lem (f ∷ families) ports nodes d =
      rw (written-append (filter_map (listener_of net f nodes) ports) _ d)
        (rw (add_ports_lem f ports nodes d) (add_families_lem families ports nodes _))

  add_source_ranges_lem :
      (ranges : List String) (found : List SourceRange)
      → add_source_ranges net ranges found ≡ found ++ filter_map (range_of net) ranges
  unfolding add_source_ranges filter_map
  add_source_ranges_lem [] found = sym (append-nil found)
  add_source_ranges_lem (sr ∷ ranges) found = elim (Option-cases (net.parse_cidr (trim_space sr))) [
    | inl h ↦ rw (h, range_of) (add_source_ranges_lem ranges found)
    | inr ((prefix, length), h) ↦
        rw (h, range_of)
          (add_source_ranges_lem ranges (found ++ record { prefix = prefix; length = length } ∷ [])
            ∙ append_assoc found (record { prefix = prefix; length = length } ∷ []) _)
  ]

-- The loops of `generateConfig` make exactly the configuration that `reference` describes without
-- them: the map after writing, family by family, the listeners of the TCP and UDP ports in order;
-- behind each listener one endpoint for each address of the nodes that the conditions let through,
-- in order; the source ranges that can be parsed, in order; and the health check port.
pub config_data-reference :
    (net : Net) (service : Service) (nodes : List Node)
    → config_data net service nodes ≡ reference net service nodes
unfolding config_data health_check_port
config_data-reference net service nodes =
    rw
      (
        add_families_lem net service.ip_families service.ports nodes [],
        add_source_ranges_lem net service.load_balancer_source_ranges [],
      )
      refl
