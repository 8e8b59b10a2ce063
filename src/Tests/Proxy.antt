-- ===== src/Tests/Proxy.antt =====
-- The configuration of the proxy for a service with a TCP and a UDP port.
use cloud_provider_kind.Base.{
  String, ◌≡◌, ◌≢◌, refl, sym, ap, ◌∙◌, arith, ◌↔◌, ◌⊎◌, some, List, [], ◌∷◌, ◌++◌, inl, inr, In,
  string_eq, char_eq, nat_eq,
}
use cloud_provider_kind.Base.Dict
use cloud_provider_kind.Base.Text.{Lacks-of_lacks}
use cloud_provider_kind.Api.{SpecPort, Node, NodeAddress}
use cloud_provider_kind.LoadBalancer.Proxy.Config.{
  Endpoint, ServicePort, ProxyConfigData, SourceRange, service_port, config_data,
}
use cloud_provider_kind.LoadBalancer.Proxy.Config.Backends.{IsInternal, cluster_iff}
use cloud_provider_kind.LoadBalancer.Proxy.Config.Comprehension.{
  promised_key, promised, reference, config_data-reference,
}
use cloud_provider_kind.LoadBalancer.Proxy.Config.Listeners.{HasDistinctPorts, HasPlainFamilies}
use cloud_provider_kind.LoadBalancer.Proxy.Config.Promised.{config_data_complete, config_data_sound}
use cloud_provider_kind.LoadBalancer.Proxy.Template.{
  listener_lines, lds, template_lines, proxy_config,
}
use cloud_provider_kind.LoadBalancer.Proxy.Template.Order.{proxy_config_ignores_order}
use cloud_provider_kind.LoadBalancer.Proxy.Template.Blocks.{
  listener_to_cluster, listener_has_cluster,
}
use cloud_provider_kind.LoadBalancer.Proxy.Template.Lines.{source_ranges_not_on_udp}
use cloud_provider_kind.Tests.Fixtures.{net, service, node, web, dns}

plain : HasPlainFamilies ("IPv4" ∷ [])
plain f (inl e) = rw e (Lacks-of_lacks "_" "IPv4" refl)
plain f (inr i) = elim i [ ]

differ : (p q : SpecPort) → p ≡ web → q ≡ dns → p.port ≢ q.port
differ p q a b number =
    let wrong : web.port ≡ dns.port =
      sym (ap (λ (x : SpecPort). x.port) a) ∙ number ∙ ap (λ (x : SpecPort). x.port) b in
    omega arith

distinct : HasDistinctPorts (web ∷ dns ∷ [])
distinct p q (inl a) (inl b) number protocol = a ∙ sym b
distinct p q (inl a) (inr (inl b)) number protocol = absurd (differ p q a b number)
distinct p q (inr (inl a)) (inl b) number protocol = absurd (differ q p b a (sym number))
distinct p q (inr (inl a)) (inr (inl b)) number protocol = a ∙ sym b
distinct p q (inl a) (inr (inr i)) number protocol = elim i [ ]
distinct p q (inr (inr i)) m number protocol = elim i [ ]
distinct p q (inr (inl a)) (inr (inr i)) number protocol = elim i [ ]

config_data_complete_example :
    Dict.lookup (promised_key "IPv4" web) (config_data net service (node ∷ [])).service_ports
    ≡ some (promised net "IPv4" (node ∷ []) web)
config_data_complete_example =
    config_data_complete net service (node ∷ []) "IPv4" web plain distinct (inl refl) (inl refl)
      (inl refl)

config_data_sound_example :
    (f : String) × In f ("IPv4" ∷ [])
    × ((p : SpecPort) × In p (web ∷ dns ∷ [])
        × ((p.protocol ≡ "TCP") ⊎ (p.protocol ≡ "UDP"))
        × (promised_key "IPv4" web ≡ promised_key f p)
        × (promised net "IPv4" (node ∷ []) web ≡ promised net f (node ∷ []) p))
config_data_sound_example =
    config_data_sound net service (node ∷ []) (promised_key "IPv4" web)
      (promised net "IPv4" (node ∷ []) web)
      (config_data_complete net service (node ∷ []) "IPv4" web plain distinct (inl refl) (inl refl)
        (inl refl))

config_data-reference_example :
    config_data net service (node ∷ []) ≡ reference net service (node ∷ [])
config_data-reference_example = config_data-reference net service (node ∷ [])

swapped : (p : SpecPort) → In p (web ∷ dns ∷ []) ↔ In p (dns ∷ web ∷ [])
swapped p = (to, from)
  where
    to : In p (web ∷ dns ∷ []) → In p (dns ∷ web ∷ [])
    to (inl a) = inr (inl a)
    to (inr (inl b)) = inl b
    to (inr (inr i)) = elim i [ ]

    from : In p (dns ∷ web ∷ []) → In p (web ∷ dns ∷ [])
    from (inl b) = inr (inl b)
    from (inr (inl a)) = inl a
    from (inr (inr i)) = elim i [ ]

proxy_config_ignores_order_example :
    proxy_config lds (config_data net (record service { ports = dns ∷ web ∷ [] }) (node ∷ []))
    ≡ proxy_config lds (config_data net service (node ∷ []))
proxy_config_ignores_order_example =
    proxy_config_ignores_order lds net service (node ∷ []) ("IPv4" ∷ []) (dns ∷ web ∷ []) plain
      distinct (λ f. (λ m. m, λ m. m)) swapped

abbrev web_backend : Endpoint
web_backend = record { address = "192.168.8.2"; port = 30080; protocol = "TCP" }

cluster_iff_example : In web_backend (service_port net "IPv4" web (node ∷ [])).cluster ↔ (
    (n : Node) × In n (node ∷ [])
    × ((addr : NodeAddress) × In addr n.addresses
        × IsInternal net "IPv4" addr
        × (web_backend ≡ record { address = addr.address; port = 30080; protocol = "TCP" })))
cluster_iff_example = cluster_iff net "IPv4" web (node ∷ []) web_backend

-- Data like that of "ipv4 CDS with affinity" in proxy_test.go, with a UDP listener.
abbrev backend : Endpoint
backend = record { address = "192.168.8.2"; port = 30497; protocol = "TCP" }

abbrev tcp_listener : ServicePort
tcp_listener = record {
  listener = record { address = "0.0.0.0"; port = 80; protocol = "TCP" };
  cluster = backend ∷ [];
}

abbrev udp_listener : ServicePort
udp_listener = record {
  listener = record { address = "0.0.0.0"; port = 53; protocol = "UDP" };
  cluster = [];
}

abbrev range : SourceRange
range = record { prefix = "10.0.0.0"; length = 8 }

abbrev data' : ProxyConfigData
data' = record {
  health_check_port = 32764;
  service_ports = ("IPv4_80", tcp_listener) ∷ ("IPv4_53", udp_listener) ∷ [];
  session_affinity = "ClientIP";
  source_ranges = range ∷ [];
}

has_tcp : Dict.lookup "IPv4_80" data'.service_ports ≡ some tcp_listener
unfolding Dict.lookup string_eq
has_tcp = refl

listener_has_cluster_example :
    (before rest : List String) × (template_lines lds data'
      ≡ before ++ (listener_to_cluster "IPv4_80" tcp_listener ++ rest))
listener_has_cluster_example = listener_has_cluster data' "IPv4_80" tcp_listener has_tcp

source_ranges_not_on_udp_example :
    listener_lines (record data' { source_ranges = [] }) ("IPv4_53", udp_listener)
    ≡ listener_lines data' ("IPv4_53", udp_listener)
source_ranges_not_on_udp_example = source_ranges_not_on_udp data' "IPv4_53" udp_listener [] refl
