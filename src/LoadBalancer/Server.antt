-- ===== src/LoadBalancer/Server.antt =====
-- pkg/loadbalancer/server.go: the methods of the cloud provider's `LoadBalancer`.
pub mod Create
pub mod Status
pub mod Ensured
pub mod Deleted
pub mod Keeps
pub mod Running
use cloud_provider_kind.Base.{
  String, ◌<>◌, ℕ, ◌==◌, string_eq, contains, if◌then◌else◌, Bool, true, false, not, ◌&&◌, ◌||◌,
  Option, none, some, List, [], ◌∷◌, ◌++◌, map,
}
use cloud_provider_kind.Base.FilePath.{path_join}
use cloud_provider_kind.Base.Text.{has_substring}
use cloud_provider_kind.Api.{
  Service, SpecPort, Node, PortStatus, Ingress, LoadBalancerStatus, ipv4_protocol, ipv6_protocol,
  ip_mode_proxy,
}
use cloud_provider_kind.Config.{Config, is_tunnel}
use cloud_provider_kind.Container
use cloud_provider_kind.LoadBalancer.Names.{load_balancer_name}
use cloud_provider_kind.LoadBalancer.Proxy.Update.{proxy_image, proxy_update_load_balancer}
use cloud_provider_kind.LoadBalancer.Server.Create.{create_load_balancer}
use cloud_provider_kind.LoadBalancer.Tunnel.{Tunnels, setup_tunnels, remove_tunnels}
use cloud_provider_kind.World.{
  Err, errorf, wrapf, join, error_text, Result, ok, err, Proc, config, pure, fail, lift, check,
  ◌>>=◌, ◌>>◌,
}

-- `Server`. A `tunnelManager` that is nil is `none`.
pub record Server : Type 0 where
  pub tunnel_manager : Option Tunnels

unfoldable pub new_server : Config → Server
new_server c = record {
  tunnel_manager = if is_tunnel c.load_balancer_connectivity then some [] else none;
}

-- The three results of `GetLoadBalancer`.
pub record Lookup : Type 0 where
  pub status : Option LoadBalancerStatus
  pub exists : Bool
  pub error : Option Err

port_status : SpecPort → PortStatus
port_status p = record { port = p.port; protocol = p.protocol }

-- An ingress for an address, if there is one and the service has its family.
ingress_of : Service → String → String → List Ingress
unfolding port_status
ingress_of service family ip =
    if not (ip == "") && contains service.ip_families family
    then record { ip = ip; ip_mode = ip_mode_proxy; ports = map port_status service.ports } ∷ []
    else []

unfoldable pub status_of : Service → String × String → LoadBalancerStatus
unfolding ingress_of
status_of service (ipv4, ipv6) = record {
  ingress = ingress_of service ipv4_protocol ipv4 ++ ingress_of service ipv6_protocol ipv6;
}

abbrev details_text : String
details_text = "failed to get container details"

-- A container whose details cannot be read is taken not to exist.
unfoldable pub lookup_of : Service → Result (String × String) → Lookup
unfolding status_of has_substring
lookup_of service (ok both) = record {
  status = some (status_of service both);
  exists = true;
  error = none;
}
lookup_of service (err x) = record {
  status = none;
  exists = false;
  error = if has_substring (error_text x) details_text then none else some x;
}

unfoldable pub get_load_balancer : String → Service → Proc (Result Lookup)
get_load_balancer cluster_name service = do
  both ← lift (Container.ips (load_balancer_name cluster_name service))
  pure (lookup_of service both)

abbrev pub get_load_balancer_name : String → Service → String
get_load_balancer_name = load_balancer_name

unfoldable pub update_load_balancer : String → Service → List Node → Proc (Result (Unit {0}))
update_load_balancer cluster_name service nodes =
    proxy_update_load_balancer cluster_name (some service) nodes

-- Removes a container that is there and does not run.
unfoldable pub remove_stale : String → Proc (Result (Unit {0}))
remove_stale name = do
  running ← Container.is_running name
  stale ← if running then pure false else Container.exist name
  if stale then Container.delete name else pure tt

-- Creates the container where there is none.
unfoldable pub create_missing : Server → String → Service → Proc (Result (Unit {0}))
create_missing s cluster_name service = do
  there ← Container.exist (load_balancer_name cluster_name service)
  (if there
      then pure tt
      else create_load_balancer s.tunnel_manager cluster_name service proxy_image)

not_found : String → Err
not_found name = errorf ("loadbalancer " <> (name <> " not found"))

-- The last part of `EnsureLoadBalancer`: `!ok` is asked before `err`.
unfoldable pub ensured : String → Lookup → Result LoadBalancerStatus
unfolding not_found
ensured name l =
    if l.exists
    then elim l.error [
      | some x ↦ err x
      | none ↦ elim l.status [ none ↦ err (not_found name) | some status ↦ ok status ]
    ]
    else err (not_found name)

-- The part of `EnsureLoadBalancer` before the tunnels.
unfoldable pub ensure_container : Server → String → Service → List Node → Proc (Result (Unit {0}))
unfolding remove_stale create_missing update_load_balancer
ensure_container s cluster_name service nodes = do
  remove_stale (load_balancer_name cluster_name service)
  create_missing s cluster_name service
  update_load_balancer cluster_name service nodes

unfoldable pub ensure_tunnels : Server → String → Proc (Result (Unit {0}) × Server)
ensure_tunnels s name e w = elim s.tunnel_manager [
  | none ↦ ((ok tt, s), w)
  | some ts ↦
      let ((r, ts'), w') = setup_tunnels name ts e w in
      ((r, record { tunnel_manager = some ts' }), w')
]

unfoldable pub ensure_status : String → Service → Proc (Result LoadBalancerStatus)
unfolding get_load_balancer
ensure_status cluster_name service = do
  l ← get_load_balancer cluster_name service
  λ e w. (ensured (load_balancer_name cluster_name service) l, w)

-- The part of `EnsureLoadBalancer` behind the tunnels.
unfoldable pub after_tunnels :
    String → Service → Server → Result (Unit {0}) → Proc (Result LoadBalancerStatus × Server)
unfolding ensure_status
after_tunnels cluster_name service s (err x) e w = ((err x, s), w)
after_tunnels cluster_name service s (ok _) e w =
    let (status, w') = ensure_status cluster_name service e w in ((status, s), w')

-- The part of `EnsureLoadBalancer` behind the update.
unfoldable pub after_container :
    String → Service → Server → Result (Unit {0}) → Proc (Result LoadBalancerStatus × Server)
unfolding ensure_tunnels after_tunnels
after_container cluster_name service s (err x) e w = ((err x, s), w)
after_container cluster_name service s (ok _) e w =
    let ((r, s'), w') = ensure_tunnels s (load_balancer_name cluster_name service) e w in
    after_tunnels cluster_name service s' r e w'

unfoldable pub ensure_load_balancer :
    Server → String → Service → List Node → Proc (Result LoadBalancerStatus × Server)
unfolding ensure_container after_container
ensure_load_balancer s cluster_name service nodes e w =
    let (r, w') = ensure_container s cluster_name service nodes e w in
    after_container cluster_name service s r e w'

-- `errors.Join`
abbrev pub joined : Result (Unit {0}) → Result (Unit {0}) → Result (Unit {0})
joined (ok _) (ok _) = ok tt
joined (ok _) (err y) = err y
joined (err x) (ok _) = err x
joined (err x) (err y) = err (join x y)

abbrev pub log_file : Config → Service → String
log_file c service = path_join c.log_dir (service.namespace <> ("_" <> (service.name <> ".log")))

-- An error of the dump is logged only.
unfoldable pub dump : String → String → Proc (Result (Unit {0}))
dump name file = do ignored ← lift (Container.log_dump name file); pure tt

unfoldable pub dump_logs : String → Service → Proc (Result (Unit {0}))
unfolding dump
dump_logs name service = do
  c ← lift config
  if c.enable_log_dump then dump name (log_file c service) else pure tt

unfoldable pub remove_server_tunnels : Server → String → Proc (Result (Unit {0}))
remove_server_tunnels s name = elim s.tunnel_manager [
  | none ↦ pure tt
  | some ts ↦ remove_tunnels name ts
]

unfoldable pub ensure_load_balancer_deleted : Server → String → Service → Proc (Result (Unit {0}))
ensure_load_balancer_deleted s cluster_name service = do
  let name = load_balancer_name cluster_name service
  r1 ← lift (remove_server_tunnels s name)
  dump_logs name service
  r2 ← lift (Container.delete name)
  λ e w. (joined r1 r2, w)
