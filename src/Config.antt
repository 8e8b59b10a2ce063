-- ===== src/Config.antt =====
-- pkg/config/config.go and pkg/constants/constants.go.
use cloud_provider_kind.Base.{String, Bool, true, false}

-- `Unknown` is the zero value.
pub data Connectivity : Type 0 where
  unknown direct portmap tunnel : Connectivity

pub record Config : Type 0 where
  pub enable_log_dump : Bool
  pub log_dir : String
  pub load_balancer_connectivity : Connectivity
  pub control_plane_connectivity : Connectivity

-- `&Config{}`, which `DefaultConfig` points to before the flags are read.
abbrev pub zero_config : Config
zero_config = record {
  enable_log_dump = false;
  log_dir = "";
  load_balancer_connectivity = unknown;
  control_plane_connectivity = unknown;
}

-- `c == config.Direct`, and so for the others.
abbrev pub is_direct : Connectivity → Bool
is_direct direct = true
is_direct _ = false

abbrev pub is_portmap : Connectivity → Bool
is_portmap portmap = true
is_portmap _ = false

abbrev pub is_tunnel : Connectivity → Bool
is_tunnel tunnel = true
is_tunnel _ = false

abbrev pub provider_name : String
provider_name = "kind"

abbrev pub container_prefix : String
container_prefix = "kindccm"

abbrev pub fixed_network_name : String
fixed_network_name = "kind"

abbrev pub node_ccm_label_key : String
node_ccm_label_key = "io.x-k8s.cloud-provider-kind.cluster"

abbrev pub load_balancer_name_label_key : String
load_balancer_name_label_key = "io.x-k8s.cloud-provider-kind.loadbalancer.name"
