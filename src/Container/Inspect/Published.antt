-- ===== src/Container/Inspect/Published.antt =====
-- Which published ports of a container `PortMaps` reports.
use cloud_provider_kind.Base.{
  String, ◌==◌, string_eq, Bool-cases, eq_of_==, ne_of_==, ==-self, ==-ne, ◌≡◌, ◌≢◌, refl, sym, ap,
  arith, ◌∙◌, true, some, none, List, [], ◌∷◌, ◌++◌, ◌⊎◌, inl, inr, In, Option-cases,
}
use cloud_provider_kind.Base.Dict
use cloud_provider_kind.Base.Dict.{Dict, lookup-insert}
use cloud_provider_kind.Base.Text.{split, split-cons, to_lower}
use cloud_provider_kind.Container.Inspect.{
  first_host_port, port_of, protocol_of, is_supported, add_port, mappings_of, add_ports,
}
use cloud_provider_kind.World.{PortMapping}

-- A key of the container's ports publishes `port` on `host_port`: its protocol is TCP or UDP, its
-- number is `port`, and `host_port` is its first mapping that is not empty.
abbrev pub Publishes : Dict (List PortMapping) → String → String → String → Type 0
Publishes m port host_port key =
    (is_supported (protocol_of key) ≡ true)
    × (port_of key ≡ port)
    × (first_host_port (mappings_of key m) ≡ some host_port)

module _ (m : Dict (List PortMapping)) (port host_port : String) where
  add_port_sound :
      (key : String) (result : Dict String)
      → Dict.lookup port (add_port key (mappings_of key m) result) ≡ some host_port
      → (Dict.lookup port result ≡ some host_port) ⊎ Publishes m port host_port key
  unfolding add_port
  add_port_sound key result h = elim (Bool-cases (is_supported (protocol_of key))) [
    | inr other ↦ inl (rw (other, add_port) at h)
    | inl supported ↦ elim (Option-cases (first_host_port (mappings_of key m))) [
      | inl unpublished ↦ inl (rw (supported, unpublished, add_port) at h)
      | inr (hp, found) ↦
          let law = lookup-insert port (port_of key) hp result in
          let h' : Dict.lookup port (Dict.insert (port_of key) hp result) ≡ some host_port =
            rw (supported, found, add_port) at h in
          elim (Bool-cases (port == port_of key)) [
            | inr differ ↦ inl (sym (rw differ at law) ∙ h')
            | inl same ↦
                let e : some hp ≡ some host_port = sym (rw same at law) ∙ h' in
                inr (supported, sym (eq_of_== port _ same), found ∙ e)
          ]
    ]
  ]

  add_ports_sound :
      (keys : List String) (result : Dict String)
      → Dict.lookup port (add_ports keys m result) ≡ some host_port
      → (Dict.lookup port result ≡ some host_port)
        ⊎ ((key : String) × In key keys × Publishes m port host_port key)
  unfolding add_ports
  add_ports_sound [] result h = inl h
  add_ports_sound (key ∷ keys) result h = elim (add_ports_sound keys _ h) [
    | inr (k, i, p) ↦ inr (k, inr i, p)
    | inl before ↦ elim (add_port_sound key result before) [
      | inl earlier ↦ inl earlier
      | inr p ↦ inr (key, inl refl, p)
    ]
  ]

-- The parts of a key: it has the port in front, and TCP or UDP behind a slash, in any case of
-- letters. A key of another number of parts stands for TCP.
abbrev pub IsKey : String → List String → Type 0
IsKey port (p ∷ q ∷ []) = (p ≡ port) × ((to_lower q ≡ "tcp") ⊎ (to_lower q ≡ "udp"))
IsKey port (p ∷ parts) = p ≡ port
IsKey port [] = ⊥

-- The first mapping that has a host port has this one.
abbrev pub IsFirst : String → List PortMapping → Type 0
IsFirst host_port [] = ⊥
IsFirst host_port (pm ∷ pms) =
    ((pm.host_port ≢ "") × (pm.host_port ≡ host_port))
    ⊎ ((pm.host_port ≡ "") × IsFirst host_port pms)

IsFirst-first_host_port :
    (pms : List PortMapping) (hp : String) → first_host_port pms ≡ some hp → IsFirst hp pms
IsFirst-first_host_port [] hp h = absurd (cc)
IsFirst-first_host_port (pm ∷ pms) hp h = elim (Bool-cases (pm.host_port == "")) [
  | inl empty ↦ inr (eq_of_== pm.host_port "" empty, IsFirst-first_host_port pms hp (rw empty at h))
  | inr given ↦
      let is : some pm.host_port ≡ some hp = rw given at h in
      inl (ne_of_== pm.host_port "" given, cc)
]

IsKey-of_parts :
    (port key : String) (parts : List String)
    → split key "/" ≡ parts
    → is_supported (protocol_of key) ≡ true
    → port_of key ≡ port
    → IsKey port parts
unfolding protocol_of port_of
IsKey-of_parts port key [] is s n = let (p, ps, cons) = split-cons key "/" in absurd (cc)
IsKey-of_parts port key (p ∷ []) is s n = rw is at n
IsKey-of_parts port key (p ∷ q ∷ []) is s n = (rw is at n, transport (to_lower q) (rw is at s))
  where
    transport : (x : String) → is_supported x ≡ true → (x ≡ "tcp") ⊎ (x ≡ "udp")
    transport x h = ground arith
IsKey-of_parts port key (p ∷ q ∷ r ∷ parts) is s n = rw is at n

-- Every port that `PortMaps` reports, whatever the order of the keys, is published: a key names
-- the port, with TCP or UDP behind it, or with another number of parts than two, which stands for
-- TCP; and the first mapping of this key that has a host port has the one that is reported.
pub port_maps_sound :
    (m : Dict (List PortMapping)) (keys : List String) (port host_port : String)
    → Dict.lookup port (add_ports keys m []) ≡ some host_port
    → (key : String) × In key keys
      × IsKey port (split key "/")
      × IsFirst host_port (mappings_of key m)
port_maps_sound m keys port host_port h = elim (add_ports_sound m port host_port keys [] h) [
  | inr (key, i, (s, n, found)) ↦ (
    key,
    i,
    IsKey-of_parts port key (split key "/") refl s n,
    IsFirst-first_host_port (mappings_of key m) host_port found,
  )
  | inl old ↦ let empty : none ≡ some host_port = unfold Dict.lookup in old in absurd (cc)
]

add_ports-append :
    (m : Dict (List PortMapping)) (keys more : List String) (result : Dict String)
    → add_ports (keys ++ more) m result ≡ add_ports more m (add_ports keys m result)
unfolding add_ports
add_ports-append m [] more result = refl
add_ports-append m (key ∷ keys) more result = add_ports-append m keys more _

add_port-Publishes :
    (m : Dict (List PortMapping)) (key port host_port : String) (result : Dict String)
    → Publishes m port host_port key
    → Dict.lookup port (add_port key (mappings_of key m) result) ≡ some host_port
unfolding add_port
add_port-Publishes m key port host_port result (supported, number, found) =
    rw (supported, found, add_port)
      (lookup-insert port (port_of key) host_port result ∙ rw (number, ==-self port))

-- The keys of other ports leave the entry of a port alone.
add_port-other :
    (key port : String) (pms : List PortMapping) (result : Dict String)
    → port_of key ≢ port
    → Dict.lookup port (add_port key pms result) ≡ Dict.lookup port result
unfolding add_port
add_port-other key port pms result differs = elim (Bool-cases (is_supported (protocol_of key))) [
  | inr other ↦ rw (other, add_port) refl
  | inl supported ↦ elim (Option-cases (first_host_port pms)) [
    | inl unpublished ↦ rw (supported, unpublished, add_port) refl
    | inr (hp, found) ↦
        rw (supported, found, add_port)
          (lookup-insert port (port_of key) hp result
            ∙ rw (==-ne port (port_of key) (λ same. differs (sym same))))
  ]
]

add_ports-others :
    (m : Dict (List PortMapping)) (keys : List String) (port : String) (result : Dict String)
    → ((key : String) → In key keys → port_of key ≢ port)
    → Dict.lookup port (add_ports keys m result) ≡ Dict.lookup port result
unfolding add_ports
add_ports-others m [] port result others = refl
add_ports-others m (key ∷ keys) port result others =
    add_ports-others m keys port _ (λ k i. others k (inr i))
    ∙ add_port-other key port (mappings_of key m) result (others key (inl refl))

first_of_IsFirst :
    (pms : List PortMapping) (hp : String) → IsFirst hp pms → first_host_port pms ≡ some hp
first_of_IsFirst [] hp h = absurd h
first_of_IsFirst (pm ∷ pms) hp (inl (given, is)) =
    rw (==-ne pm.host_port "" given) (ap (λ x. some x) is)
first_of_IsFirst (pm ∷ pms) hp (inr (empty, later)) =
    rw (empty, ==-self {A = String} "") (first_of_IsFirst pms hp later)

-- Whatever comes before it, a key is the last word on its port if the keys behind are of other
-- ports.
last_decides :
    (m : Dict (List PortMapping)) (before behind : List String)
    (key port protocol host_port : String)
    → split key "/" ≡ port ∷ protocol ∷ []
    → (protocol ≡ "tcp") ⊎ (protocol ≡ "udp")
    → IsFirst host_port (mappings_of key m)
    → ((k : String) → In k behind → port_of k ≢ port)
    → Dict.lookup port (add_ports (before ++ key ∷ behind) m []) ≡ some host_port
unfolding add_ports protocol_of port_of to_lower string_eq
last_decides m before behind key port protocol host_port parts transport first others =
    let low : is_supported (protocol_of key) ≡ true = elim transport [
      | inl tcp ↦ rw (parts, tcp) refl
      | inr udp ↦ rw (parts, udp) refl
    ] in
    let number : port_of key ≡ port = rw parts refl in
    rw (add_ports-append m before (key ∷ behind) []) (
      add_ports-others m behind port _ others
      ∙ add_port-Publishes m key port host_port _
          (low, number, first_of_IsFirst (mappings_of key m) host_port first))

other_port :
    (behind : List String) (port : String)
    → ((key : String) (parts : List String) → In key behind → split key "/" ≢ port ∷ parts)
    → (key : String) → In key behind
    → port_of key ≢ port
unfolding port_of
other_port behind port others key i same =
    let (p, ps, is) = split-cons key "/" in
    let is_port : p ≡ port = rw is at same in others key ps i (rw is (ap (λ x. x ∷ ps) is_port))

-- A port that is published on TCP and on UDP has one entry: of the two keys, the one that comes
-- later in the order of the keys decides the host port that is reported, wherever the two stand,
-- if the keys behind it are of other ports.
pub port_maps_order :
    (m : Dict (List PortMapping)) (before between behind : List String)
    (port on_tcp on_udp tcp udp : String)
    → split tcp "/" ≡ port ∷ "tcp" ∷ []
    → split udp "/" ≡ port ∷ "udp" ∷ []
    → IsFirst on_tcp (mappings_of tcp m)
    → IsFirst on_udp (mappings_of udp m)
    → ((key : String) (parts : List String) → In key behind → split key "/" ≢ port ∷ parts)
    → (Dict.lookup port (add_ports (before ++ tcp ∷ between ++ udp ∷ behind) m []) ≡ some on_udp)
      × (Dict.lookup port (add_ports (before ++ udp ∷ between ++ tcp ∷ behind) m []) ≡ some on_tcp)
port_maps_order m before between behind port on_tcp on_udp tcp udp is_tcp is_udp t u others =
    let differ = other_port behind port others in
    (
      last_decides m (before ++ tcp ∷ between) behind udp port "udp" on_udp is_udp (inr refl) u
          differ,
      last_decides m (before ++ udp ∷ between) behind tcp port "tcp" on_tcp is_tcp (inl refl) t
          differ,
    )
