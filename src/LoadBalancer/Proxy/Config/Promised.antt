-- ===== src/LoadBalancer/Proxy/Config/Promised.antt =====
-- The configuration has the listeners that a service asks for, and no other.
use cloud_provider_kind.Base.{
  String, string_eq, ◌≡◌, refl, ◌∙◌, arith, true, some, List, [], ◌⊎◌, inl, inr, In,
}
use cloud_provider_kind.Base.Dict
use cloud_provider_kind.Api.{Service, SpecPort, Node}
use cloud_provider_kind.LoadBalancer.Proxy.Config.{
  ServicePort, key_of, is_supported, service_port, config_data,
}
use cloud_provider_kind.LoadBalancer.Proxy.Config.Comprehension.{
  promised_key, promised, backends_lem,
}
use cloud_provider_kind.LoadBalancer.Proxy.Config.Listeners.{
  HasPlainFamilies, HasDistinctPorts, supported_complete, supported_sound,
}
use cloud_provider_kind.World.{Net}

-- A port of one of the two protocols that are load balanced.
abbrev pub IsTransport : SpecPort → Type 0
IsTransport p = (p.protocol ≡ "TCP") ⊎ (p.protocol ≡ "UDP")

is_supported_of_IsTransport : (p : SpecPort) → IsTransport p → is_supported p ≡ true
is_supported_of_IsTransport p t = elim t [ inl tcp ↦ ground arith | inr udp ↦ ground arith ]

IsTransport-of_is_supported : (p : SpecPort) → is_supported p ≡ true → IsTransport p
IsTransport-of_is_supported p s = ground arith

key_of_lem : (f : String) (p : SpecPort) → key_of f p ≡ promised_key f p
unfolding key_of
key_of_lem f p = refl

service_port_lem :
    (net : Net) (f : String) (p : SpecPort) (nodes : List Node)
    → service_port net f p nodes ≡ promised net f nodes p
unfolding service_port
service_port_lem net f p nodes = rw (backends_lem net f p nodes []) refl

-- Each family of a service and each of its ports whose protocol is `TCP` or `UDP` have a listener
-- under their key, on `::` for `IPv6` and else on `0.0.0.0`, with the port's number and protocol
-- and the endpoints of that family and that port, if no two ports agree in number and protocol and
-- no family holds an underscore.
pub config_data_complete :
    (net : Net) (service : Service) (nodes : List Node) (f : String) (p : SpecPort)
    → HasPlainFamilies service.ip_families
    → HasDistinctPorts service.ports
    → In f service.ip_families
    → In p service.ports
    → (p.protocol ≡ "TCP") ⊎ (p.protocol ≡ "UDP")
    → Dict.lookup (promised_key f p) (config_data net service nodes).service_ports
      ≡ some (promised net f nodes p)
config_data_complete net service nodes f p plain distinct fm m transport =
    rw (← key_of_lem f p, ← service_port_lem net f p nodes)
      (supported_complete net service nodes f p plain distinct fm m
        (is_supported_of_IsTransport p transport))

-- Every listener of the configuration is that of a family of the service and one of its ports whose
-- protocol is `TCP` or `UDP`: it has their key, and the addresses, the number, the protocol and the
-- endpoints of that family and that port.
pub config_data_sound :
    (net : Net) (service : Service) (nodes : List Node) (k : String) (sp : ServicePort)
    → Dict.lookup k (config_data net service nodes).service_ports ≡ some sp
    → (f : String) × In f service.ip_families
      × ((p : SpecPort) × In p service.ports
          × ((p.protocol ≡ "TCP") ⊎ (p.protocol ≡ "UDP"))
          × (k ≡ promised_key f p)
          × (sp ≡ promised net f nodes p))
config_data_sound net service nodes k sp h =
    let (f, fm, (p, m, s, key, value)) = supported_sound net service nodes k sp h in
    (
      f,
      fm,
      (
        p,
        m,
        IsTransport-of_is_supported p s,
        key ∙ key_of_lem f p,
        value ∙ service_port_lem net f p nodes,
      ),
    )
