-- ===== src/LoadBalancer/Proxy/Config/Listeners.antt =====
-- The configuration has a listener for each family and supported port, and no other.
use mathlib.Core.Option.{some-injective}
use cloud_provider_kind.Base.{
  String, ◌==◌, string_eq, if◌then◌else◌, eq_of_==, Bool-cases, ◌≡◌, refl, sym, arith, true, some,
  none, List, [], ◌∷◌, ◌⊎◌, inl, inr, In,
}
use cloud_provider_kind.Base.Dict
use cloud_provider_kind.Base.Dict.{Dict, lookup-insert}
use cloud_provider_kind.Base.Text.{Lacks, Lacks-of_lacks}
use cloud_provider_kind.Api.{Service, SpecPort, Node}
use cloud_provider_kind.World.{Net}
use cloud_provider_kind.LoadBalancer.Proxy.Config.{
  ServicePort, key_of, is_supported, service_port, add_ports, add_families, config_data,
}
use cloud_provider_kind.LoadBalancer.Proxy.Config.Keys.{key_of-injective}

module _ (net : Net) (nodes : List Node) (k : String) where
  -- All that the loop writes under `k` is `v`.
  abbrev Writes : ServicePort → String → List SpecPort → Type 0
  Writes v f ports =
      (q : SpecPort)
      → In q ports
      → is_supported q ≡ true
      → k ≡ key_of f q
      → service_port net f q nodes ≡ v

  add_ports-keep :
      (v : ServicePort) (f : String) (ports : List SpecPort) (found : Dict ServicePort)
      → Writes v f ports
      → Dict.lookup k found ≡ some v
      → Dict.lookup k (add_ports net f ports nodes found) ≡ some v
  unfolding add_ports
  add_ports-keep v f [] found w h = h
  add_ports-keep v f (q ∷ ports) found w h =
      let rest : Writes v f ports = λ p m. w p (inr m) in
      elim (Bool-cases (is_supported q)) [
        | inl s ↦
            rw s (
              add_ports-keep v f ports _ rest (rw lookup-insert (ground (arith, w q (inl refl) s))))
        | inr s ↦ rw s (add_ports-keep v f ports found rest h)
      ]

  add_ports-write :
      (v : ServicePort) (f : String) (p : SpecPort) (ports : List SpecPort)
      (found : Dict ServicePort)
      → Writes v f ports
      → In p ports
      → is_supported p ≡ true
      → k ≡ key_of f p
      → Dict.lookup k (add_ports net f ports nodes found) ≡ some v
  unfolding add_ports
  add_ports-write v f p [] found w m s key = elim m [ ]
  add_ports-write v f p (q ∷ ports) found w (inl e) s key =
      let s' : is_supported q ≡ true = rw (← e) s in
      let key' : k ≡ key_of f q = rw (← e) key in
      rw s' (
        add_ports-keep v f ports _ (λ r m. w r (inr m))
          (rw lookup-insert (ground (arith, w q (inl refl) s' key'))))
  add_ports-write v f p (q ∷ ports) found w (inr m) s key =
      add_ports-write v f p ports _ (λ r m. w r (inr m)) m s key

  -- A port of the list that the loop writes under `k`, with the value `sp`.
  abbrev FromPort : ServicePort → String → List SpecPort → Type 0
  FromPort sp f ports =
      (p : SpecPort) × In p ports
      × (is_supported p ≡ true)
      × (k ≡ key_of f p)
      × (sp ≡ service_port net f p nodes)

  later :
      (sp : ServicePort) (f : String) (q : SpecPort) (ports : List SpecPort)
      → FromPort sp f ports
      → FromPort sp f (q ∷ ports)
  later sp f q ports (p, m, s, key, v) = (p, inr m, s, key, v)

  insert_sound :
      (sp : ServicePort) (f : String) (q : SpecPort) (ports : List SpecPort)
      (found : Dict ServicePort)
      → is_supported q ≡ true
      → Dict.lookup k (Dict.insert (key_of f q) (service_port net f q nodes) found) ≡ some sp
      → (Dict.lookup k found ≡ some sp) ⊎ FromPort sp f (q ∷ ports)
  insert_sound sp f q ports found s h =
      let h' : (if k == key_of f q then some (service_port net f q nodes) else Dict.lookup k found)
          ≡ some sp =
        rw lookup-insert at h in
      elim (Bool-cases (k == key_of f q)) [
        | inl same ↦
            inr (q, inl refl, s, eq_of_== k _ same, some-injective _ _ (sym (rw same at h')))
        | inr other ↦ inl (rw other at h')
      ]

  -- What is found under `k` was there before, or belongs to a port.
  add_ports_sound :
      (sp : ServicePort) (f : String) (ports : List SpecPort) (found : Dict ServicePort)
      → Dict.lookup k (add_ports net f ports nodes found) ≡ some sp
      → (Dict.lookup k found ≡ some sp) ⊎ FromPort sp f ports
  unfolding add_ports
  add_ports_sound sp f [] found h = inl h
  add_ports_sound sp f (q ∷ ports) found h = elim (Bool-cases (is_supported q)) [
    | inl s ↦ elim (add_ports_sound sp f ports _ (rw s at h)) [
      | inl old ↦ insert_sound sp f q ports found s old
      | inr new ↦ inr (later sp f q ports new)
    ]
    | inr s ↦ elim (add_ports_sound sp f ports found (rw s at h)) [
      | inl old ↦ inl old
      | inr new ↦ inr (later sp f q ports new)
    ]
  ]

  add_families_sound :
      (sp : ServicePort) (families : List String) (ports : List SpecPort) (found : Dict ServicePort)
      → Dict.lookup k (add_families net families ports nodes found) ≡ some sp
      → (Dict.lookup k found ≡ some sp) ⊎ ((f : String) × In f families × FromPort sp f ports)
  unfolding add_families
  add_families_sound sp [] ports found h = inl h
  add_families_sound sp (f ∷ families) ports found h =
      elim (add_families_sound sp families ports _ h) [
        | inl old ↦ elim (add_ports_sound sp f ports found old) [
          | inl older ↦ inl older
          | inr new ↦ inr (f, inl refl, new)
        ]
        | inr (g, m, new) ↦ inr (g, inr m, new)
      ]

  add_families-keep :
      (v : ServicePort) (families : List String) (ports : List SpecPort) (found : Dict ServicePort)
      → ((f : String) → In f families → Writes v f ports)
      → Dict.lookup k found ≡ some v
      → Dict.lookup k (add_families net families ports nodes found) ≡ some v
  unfolding add_families
  add_families-keep v [] ports found w h = h
  add_families-keep v (f ∷ families) ports found w h =
      add_families-keep v families ports _ (λ g m. w g (inr m))
        (add_ports-keep v f ports found (w f (inl refl)) h)

  add_families-write :
      (v : ServicePort) (f : String) (families : List String) (p : SpecPort) (ports : List SpecPort)
      (found : Dict ServicePort)
      → ((g : String) → In g families → Writes v g ports)
      → In f families
      → In p ports
      → is_supported p ≡ true
      → k ≡ key_of f p
      → Dict.lookup k (add_families net families ports nodes found) ≡ some v
  unfolding add_families
  add_families-write v f [] p ports found w fm m s key = elim fm [ ]
  add_families-write v f (g ∷ families) p ports found w (inl e) m s key =
      add_families-keep v families ports _ (λ h n. w h (inr n))
        (add_ports-write v g p ports found (w g (inl refl)) m s (rw (← e) key))
  add_families-write v f (g ∷ families) p ports found w (inr fm) m s key =
      add_families-write v f families p ports _ (λ h n. w h (inr n)) fm m s key

Lacks-bar_of_supported : (p : SpecPort) → is_supported p ≡ true → Lacks "_" p.protocol
Lacks-bar_of_supported p s = elim (Bool-cases (p.protocol == "TCP")) [
  | inl tcp ↦ rw (eq_of_== p.protocol "TCP" tcp) (Lacks-of_lacks "_" "TCP" refl)
  | inr other ↦
      let udp : p.protocol ≡ "UDP" = ground arith in rw udp (Lacks-of_lacks "_" "UDP" refl)
]

-- No two ports of a service have both the number and the protocol in common, which the API server
-- checks.
abbrev pub HasDistinctPorts : List SpecPort → Type 0
HasDistinctPorts ports =
    (p q : SpecPort) → In p ports → In q ports → p.port ≡ q.port → p.protocol ≡ q.protocol → p ≡ q

-- The API server admits only `IPv4` and `IPv6`.
abbrev pub HasPlainFamilies : List String → Type 0
HasPlainFamilies families = (f : String) → In f families → Lacks "_" f

-- What the loops write under a key is what they leave there, if the ports are distinct.
pub supported_complete :
    (net : Net) (service : Service) (nodes : List Node) (f : String) (p : SpecPort)
    → HasPlainFamilies service.ip_families
    → HasDistinctPorts service.ports
    → In f service.ip_families
    → In p service.ports
    → is_supported p ≡ true
    → Dict.lookup (key_of f p) (config_data net service nodes).service_ports
      ≡ some (service_port net f p nodes)
unfolding config_data
supported_complete net service nodes f p plain distinct fm m s =
    add_families-write net nodes (key_of f p) _ f service.ip_families p service.ports [] same fm m s
      refl
  where
    same :
        (g : String)
        → In g service.ip_families
        → Writes net nodes (key_of f p) (service_port net f p nodes) g service.ports
    same g gm q qm qs key =
        let (families, numbers, protocols) =
          key_of-injective f g p q (plain f fm) (plain g gm) (Lacks-bar_of_supported p s)
            (Lacks-bar_of_supported q qs) key in
        rw (← families, ← distinct p q m qm numbers protocols)

-- What is under a key was written there.
pub supported_sound :
    (net : Net) (service : Service) (nodes : List Node) (k : String) (sp : ServicePort)
    → Dict.lookup k (config_data net service nodes).service_ports ≡ some sp
    → (f : String) × In f service.ip_families
      × ((p : SpecPort) × In p service.ports
          × (is_supported p ≡ true)
          × (k ≡ key_of f p)
          × (sp ≡ service_port net f p nodes))
unfolding config_data
supported_sound net service nodes k sp h =
    elim (add_families_sound net nodes k sp service.ip_families service.ports [] h) [
      | inl old ↦ let empty : none ≡ some sp = unfold Dict.lookup in old in cc
      | inr new ↦ new
    ]
