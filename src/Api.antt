-- ===== src/Api.antt =====
-- The fields that the program uses of the Kubernetes types in k8s.io/api/core/v1. A port is an
-- `int32` there; the API server admits 1 to 65535 only.
use cloud_provider_kind.Base.{String, ℕ, List, []}

-- `v1.ServicePort`
pub record SpecPort : Type 0 where
  pub port : ℕ
  pub node_port : ℕ
  pub protocol : String

-- `v1.Service`, with its metadata and its spec in one record.
pub record Service : Type 0 where
  pub namespace : String
  pub name : String
  pub ports : List SpecPort
  pub ip_families : List String
  pub session_affinity : String
  pub external_traffic_policy : String
  pub health_check_node_port : ℕ
  pub load_balancer_source_ranges : List String

-- A service with no more than its metadata.
abbrev pub named_service : String → String → Service
named_service namespace name = record {
  namespace = namespace;
  name = name;
  ports = [];
  ip_families = [];
  session_affinity = "";
  external_traffic_policy = "";
  health_check_node_port = 0;
  load_balancer_source_ranges = [];
}

-- `v1.NodeAddress`
pub record NodeAddress : Type 0 where
  pub kind : String
  pub address : String

-- `v1.Node`
pub record Node : Type 0 where
  pub name : String
  pub addresses : List NodeAddress

-- `v1.PortStatus`
pub record PortStatus : Type 0 where
  pub port : ℕ
  pub protocol : String

-- `v1.LoadBalancerIngress`
pub record Ingress : Type 0 where
  pub ip : String
  pub ip_mode : String
  pub ports : List PortStatus

-- `v1.LoadBalancerStatus`
pub record LoadBalancerStatus : Type 0 where
  pub ingress : List Ingress

abbrev pub ipv4_protocol : String
ipv4_protocol = "IPv4"

abbrev pub ipv6_protocol : String
ipv6_protocol = "IPv6"

abbrev pub protocol_tcp : String
protocol_tcp = "TCP"

abbrev pub protocol_udp : String
protocol_udp = "UDP"

abbrev pub node_internal_ip : String
node_internal_ip = "InternalIP"

abbrev pub node_host_name : String
node_host_name = "Hostname"

abbrev pub traffic_policy_local : String
traffic_policy_local = "Local"

abbrev pub ip_mode_proxy : String
ip_mode_proxy = "Proxy"
