-- ===== src/LoadBalancer/Proxy/Config.antt =====
-- `generateConfig` of pkg/loadbalancer/proxy.go: what the templates are rendered with.
pub mod Keys
pub mod Backends
pub mod Listeners
pub mod Comprehension
pub mod Promised
use cloud_provider_kind.Base.{
  String, ◌<>◌, ℕ, ◌==◌, string_eq, if◌then◌else◌, Bool, true, false, not, ◌&&◌, ◌||◌, Option, none,
  some, List, [], ◌∷◌, ◌++◌,
}
use cloud_provider_kind.Base.Decimal.{itoa}
use cloud_provider_kind.Base.Dict
use cloud_provider_kind.Base.Dict.{Dict}
use cloud_provider_kind.Base.Text.{trim_space}
use cloud_provider_kind.Api.{
  Service, SpecPort, Node, NodeAddress, ipv4_protocol, ipv6_protocol, protocol_tcp, protocol_udp,
  node_internal_ip, traffic_policy_local,
}
use cloud_provider_kind.World.{Net}

pub record SourceRange : Type 0 where
  pub prefix : String
  pub length : ℕ

pub record Endpoint : Type 0 where
  pub address : String
  pub port : ℕ
  pub protocol : String

pub record ServicePort : Type 0 where
  pub listener : Endpoint
  pub cluster : List Endpoint

pub record ProxyConfigData : Type 0 where
  pub health_check_port : ℕ
  pub service_ports : Dict ServicePort
  pub session_affinity : String
  pub source_ranges : List SourceRange

-- The key of a listener and its cluster, `%s_%d_%s`.
unfoldable pub key_of : String → SpecPort → String
key_of ip_family port = ip_family <> ("_" <> (itoa port.port <> ("_" <> port.protocol)))

abbrev pub is_supported : SpecPort → Bool
is_supported port = port.protocol == protocol_tcp || port.protocol == protocol_udp

abbrev pub bind_address : String → String
bind_address ip_family = if ip_family == ipv6_protocol then "\"::\"" else "0.0.0.0"

abbrev pub health_check_default : ℕ
health_check_default = 10256

module _ (net : Net) where
  -- Whether the loop over the addresses of a node goes on to add this one.
  abbrev pub is_backend : String → NodeAddress → Bool
  is_backend ip_family addr =
      if not (addr.kind == node_internal_ip)
      then false
      else if net.is_ipv4_string addr.address && not (ip_family == ipv4_protocol)
          || net.is_ipv6_string addr.address && not (ip_family == ipv6_protocol)
      then false
      else true

  abbrev pub endpoint_at : SpecPort → NodeAddress → Endpoint
  endpoint_at port addr = record {
    address = addr.address;
    port = port.node_port;
    protocol = port.protocol;
  }

  -- The endpoints of one node, behind those of the nodes before it.
  unfoldable pub node_backends :
      String → SpecPort → List NodeAddress → List Endpoint → List Endpoint
  node_backends ip_family port [] found = found
  node_backends ip_family port (addr ∷ addrs) found =
      node_backends ip_family port addrs
        (if is_backend ip_family addr then found ++ endpoint_at port addr ∷ [] else found)

  unfoldable pub backends : String → SpecPort → List Node → List Endpoint → List Endpoint
  unfolding node_backends
  backends ip_family port [] found = found
  backends ip_family port (n ∷ nodes) found =
      backends ip_family port nodes (node_backends ip_family port n.addresses found)

  unfoldable pub service_port : String → SpecPort → List Node → ServicePort
  unfolding backends
  service_port ip_family port nodes = record {
    listener = record {
      address = bind_address ip_family;
      port = port.port;
      protocol = port.protocol;
    };
    cluster = backends ip_family port nodes [];
  }

  -- The loop over the ports, for one family.
  unfoldable pub add_ports :
      String → List SpecPort → List Node → Dict ServicePort → Dict ServicePort
  add_ports ip_family [] nodes found = found
  add_ports ip_family (port ∷ ports) nodes found = add_ports ip_family ports nodes (
      if is_supported port
      then Dict.insert (key_of ip_family port) (service_port ip_family port nodes) found
      else found)

  unfoldable pub add_families :
      List String → List SpecPort → List Node → Dict ServicePort → Dict ServicePort
  unfolding add_ports
  add_families [] ports nodes found = found
  add_families (ip_family ∷ families) ports nodes found =
      add_families families ports nodes (add_ports ip_family ports nodes found)

  abbrev add_range : List SourceRange → Option (String × ℕ) → List SourceRange
  add_range found none = found
  add_range found (some (prefix, length)) =
      found ++ record { prefix = prefix; length = length } ∷ []

  unfoldable pub add_source_ranges : List String → List SourceRange → List SourceRange
  add_source_ranges [] found = found
  add_source_ranges (sr ∷ ranges) found =
      add_source_ranges ranges (add_range found (net.parse_cidr (trim_space sr)))

  unfoldable pub health_check_port : Service → ℕ
  health_check_port service =
      if service.external_traffic_policy == traffic_policy_local
      then service.health_check_node_port
      else health_check_default

  unfoldable pub config_data : Service → List Node → ProxyConfigData
  unfolding add_families add_source_ranges health_check_port
  config_data service nodes = record {
    health_check_port = health_check_port service;
    service_ports = add_families service.ip_families service.ports nodes [];
    session_affinity = service.session_affinity;
    source_ranges = add_source_ranges service.load_balancer_source_ranges [];
  }

  -- A service that is nil has no configuration.
  unfoldable pub generate_config : Option Service → List Node → Option ProxyConfigData
  unfolding config_data
  generate_config none nodes = none
  generate_config (some service) nodes = some (config_data service nodes)
