-- ===== src/LoadBalancer/Proxy/Update.antt =====
-- How pkg/loadbalancer/proxy.go hands a configuration to envoy, and waits for it.
pub mod Ready
pub mod Waits
pub mod Files
pub mod Installed
use cloud_provider_kind.Base.{
  String, ◌<>◌, ℕ, zero, suc, ◌==◌, string_eq, nat_eq, if◌then◌else◌, Bool, true, false, Option,
  none, some, List, [], ◌∷◌,
}
use cloud_provider_kind.Base.Decimal.{itoa}
use cloud_provider_kind.Base.Dict
use cloud_provider_kind.Base.Dict.{Dict}
use cloud_provider_kind.Base.Text.{join_host_port, trim_space}
use cloud_provider_kind.Api.{Service, Node}
use cloud_provider_kind.Config.{is_direct}
use cloud_provider_kind.Container.{port_maps, ips, exec}
use cloud_provider_kind.LoadBalancer.Names.{load_balancer_name}
use cloud_provider_kind.LoadBalancer.Proxy.Config.{ProxyConfigData, config_data}
use cloud_provider_kind.LoadBalancer.Proxy.Template.{Template, lds, cds, proxy_config}
use cloud_provider_kind.World.{
  Err, errorf, wrapf, Result, ok, err, Output, Response, Net, http_get, poll_budget, Proc, perform,
  config, pure, fail, lift, check, ◌>>=◌, ◌>>◌,
}

abbrev pub proxy_image : String
proxy_image = "docker.io/envoyproxy/envoy:v1.30.1"

abbrev pub proxy_config_path : String
proxy_config_path = "/home/envoy/envoy.yaml"

abbrev pub proxy_config_path_cds : String
proxy_config_path_cds = "/home/envoy/cds.yaml"

abbrev pub proxy_config_path_lds : String
proxy_config_path_lds = "/home/envoy/lds.yaml"

abbrev pub envoy_admin_port : ℕ
envoy_admin_port = 10000

abbrev live_text : Result String → Bool
live_text (err x) = false
live_text (ok body) = trim_space body == "LIVE"

-- Whether one answer of the admin endpoint says that envoy is ready.
unfoldable pub is_live : Result Response → Bool
is_live (err x) = false
is_live (ok resp) = if resp.status_code == 200 then live_text resp.body else false

abbrev pub ready_url : String → String
ready_url authority = "http://" <> (authority <> "/ready")

abbrev pub deadline_exceeded : Err
deadline_exceeded = errorf "context deadline exceeded"

-- `wait.PollUntilContextTimeout` over the condition, which is tried at most `rounds` times.
unfoldable pub poll_ready : ℕ → String → Proc (Result (Unit {0}))
poll_ready zero authority e w = (err deadline_exceeded, w)
poll_ready (suc rounds) authority e w =
    let (resp, w') = perform (http_get (ready_url authority)) e w in
    let again = poll_ready rounds authority e w' in if is_live resp then (ok tt, w') else again

unfoldable pub port_not_found : Dict String → Err
port_not_found portmaps = errorf (
    "envoy admin port "
    <> (itoa envoy_admin_port <> (" not found, got " <> Dict.print_map portmaps)))

-- The authority of the admin endpoint, by the connectivity of the control plane.
unfoldable pub direct_authority : String → Proc (Result String)
direct_authority name = do both ← ips name; pure (join_host_port both.0 (itoa envoy_admin_port))

unfoldable pub published_authority : Dict String → Proc (Result String)
unfolding port_not_found
published_authority portmaps = elim (Dict.lookup (itoa envoy_admin_port) portmaps) [
  | none ↦ fail (port_not_found portmaps)
  | some port ↦ pure (join_host_port "127.0.0.1" port)
]

unfoldable pub wait_load_balancer_ready : String → ℕ → Proc (Result (Unit {0}))
unfolding poll_ready direct_authority published_authority
wait_load_balancer_ready name timeout = do
  portmaps ← port_maps name
  c ← lift config
  authority ←
      if is_direct c.control_plane_connectivity
      then direct_authority name
      else published_authority portmaps
  rounds ← lift (perform (poll_budget 1 timeout))
  poll_ready rounds authority

abbrev pub write_command : String → List String
write_command path = "cp" ∷ "/dev/stdin" ∷ (path <> ".tmp") ∷ []

abbrev pub move_command : List String
move_command =
    "bash" ∷ "-c"
    ∷ "chmod a+rw /home/envoy/* && mv /home/envoy/cds.yaml.tmp /home/envoy/cds.yaml && mv /home/envoy/lds.yaml.tmp /home/envoy/lds.yaml"
    ∷ []

-- Writes a text to the temporary file beside `path`.
unfoldable pub write_config : String → String → String → Proc (Result Output)
write_config name path text = do
  out ← exec name (write_command path) (some text)
  λ e w. (check out.error, w)
  pure out

abbrev pub moved : String → String → Option Err → Result (Unit {0})
moved stdout stderr none = ok tt
moved stdout stderr (some x) = err (
    wrapf
      ("error updating configuration Stdout: " <> (stdout <> (" Stderr: " <> (stderr <> " : ")))) x)

-- Moves both temporary files in place; an error quotes what all three commands have written.
unfoldable pub move_configs : String → Output → Output → Proc (Result (Unit {0}))
move_configs name first second = do
  out ← exec name move_command none
  λ e w. (
    moved (first.stdout <> (second.stdout <> out.stdout))
        (first.stderr <> (second.stderr <> out.stderr)) out.error,
    w,
  )

-- `errors.Wrap(err, "failed to generate loadbalancer config data")`
abbrev pub generated : Result String → Result String
generated (ok text) = ok text
generated (err x) = err (wrapf "failed to generate loadbalancer config data: " x)

-- A rendered text.
abbrev pub rendered : Template → ProxyConfigData → Proc (Result String)
rendered t d e w = (generated (proxy_config t d), w)

abbrev pub net : Proc Net
net e w = (e.net, w)

-- `proxyUpdateLoadBalancer` for a service that is not nil.
unfoldable pub update_service : String → Service → List Node → Proc (Result (Unit {0}))
unfolding write_config move_configs
update_service cluster_name service nodes = do
  let name = load_balancer_name cluster_name service
  n ← lift net
  let data' = config_data n service nodes
  lds_config ← rendered lds data'
  first ← write_config name proxy_config_path_lds lds_config
  cds_config ← rendered cds data'
  second ← write_config name proxy_config_path_cds cds_config
  move_configs name first second
  wait_load_balancer_ready name 30

unfoldable pub proxy_update_load_balancer :
    String → Option Service → List Node → Proc (Result (Unit {0}))
unfolding update_service
proxy_update_load_balancer cluster_name none nodes = pure tt
proxy_update_load_balancer cluster_name (some service) nodes =
    update_service cluster_name service nodes
