-- ===== src/Tests/Server.antt =====
-- The load balancer of a service, against a runtime that answers by what was called before.
use cloud_provider_kind.Base.{
  String, ◌≡◌, ◌≢◌, refl, ◌↔◌, ◌⊎◌, ne_of_==, string_eq, char_eq, nat_eq, true, some, none, [], ◌∷◌,
  In,
}
use cloud_provider_kind.Base.Dict
use cloud_provider_kind.Base.Dict.{Dict}
use cloud_provider_kind.Api.{Ingress}
use cloud_provider_kind.Base.Decimal.{itoa}
use cloud_provider_kind.Base.Text.{split, to_lower, trim_space}
use cloud_provider_kind.Container.{
  ips, exec, is_running, exist, delete, create, port_maps, add_port, protocol_of, port_of,
}
use cloud_provider_kind.LoadBalancer.Proxy.Template.{proxy_config}
use cloud_provider_kind.LoadBalancer.Names.{
  load_balancer_name, hash_name, load_balancer_simple_name,
}
use cloud_provider_kind.LoadBalancer.Proxy.Update.{
  update_service, is_live, wait_load_balancer_ready,
}
use cloud_provider_kind.LoadBalancer.Proxy.Update.Ready.{IsReady, update_service-IsReady}
use cloud_provider_kind.LoadBalancer.Server.{
  Server, joined, status_of, remove_stale, create_missing, remove_server_tunnels,
  ensure_load_balancer_deleted,
}
use cloud_provider_kind.LoadBalancer.Server.Create.{create_load_balancer}
use cloud_provider_kind.LoadBalancer.Server.Deleted.{ensure_load_balancer_deleted_lem}
use cloud_provider_kind.LoadBalancer.Server.Running.{ensure_running}
use cloud_provider_kind.LoadBalancer.Server.Status.{IsIngress, status_of_iff}
use cloud_provider_kind.LoadBalancer.Tunnel.{Tunnels, prepare, setup_tunnels, add_ip_command}
use cloud_provider_kind.LoadBalancer.Tunnel.Started.{IsStarted, setup_tunnels-IsStarted}
use cloud_provider_kind.Tests.Fixtures.{
  env, world, service, node, ran, inspected, runtime-IsAlone, runtime,
}
use cloud_provider_kind.World.{ok, Trace, run, check}

abbrev server : Server
server = record { tunnel_manager = some [] }

abbrev name : String
name = load_balancer_name "kind" service

abbrev web_ingress : Ingress
web_ingress = record { ip = "192.168.8.9"; ip_mode = "Proxy"; ports = [] }

status_of_iff_example :
    In web_ingress (status_of service ("192.168.8.9", "")).ingress
    ↔ (IsIngress service "IPv4" "192.168.8.9" web_ingress ⊎ IsIngress service "IPv6" "" web_ingress)
status_of_iff_example = status_of_iff service "192.168.8.9" "" web_ingress

ensure_load_balancer_deleted_lem_example :
    (before : Trace) × ((ensure_load_balancer_deleted server "kind" service env world).1.trace
      ≡ run ("docker" ∷ "rm" ∷ "-f" ∷ name ∷ []) none ∷ before)
    × ((ensure_load_balancer_deleted server "kind" service env world).0
        ≡ joined
            (remove_server_tunnels server name env world).0
            (check (env.answer before (run ("docker" ∷ "rm" ∷ "-f" ∷ name ∷ []) none)).error))
ensure_load_balancer_deleted_lem_example =
    ensure_load_balancer_deleted_lem server "kind" service env world

stale_is_removed : (remove_stale name env world).0 ≡ ok tt
unfolding remove_stale ran is_running string_eq exist delete
stale_is_removed = refl

missing_is_created :
    (create_missing server "kind" service env (remove_stale name env world).1).0 ≡ ok tt
unfolding create_missing remove_stale create_load_balancer ran exist string_eq is_running delete
    load_balancer_name hash_name load_balancer_simple_name create
missing_is_created = refl

ensure_running_example :
    runtime.live
      (create_missing server "kind" service env (remove_stale name env world).1).1.trace
      name
    ≡ true
ensure_running_example =
    ensure_running env runtime server "kind" service world (runtime-IsAlone name) stale_is_removed
      missing_is_created

is_updated : (update_service "kind" service (node ∷ []) env world).0 ≡ ok tt
unfolding update_service ran inspected proxy_config exec string_eq wait_load_balancer_ready
    port_maps Dict.lookup Dict.keys add_port protocol_of split char_eq to_lower Dict.insert port_of
    itoa nat_eq is_live trim_space
is_updated = refl

update_service-IsReady_example :
    IsReady env name (update_service "kind" service (node ∷ []) env world).1.trace
update_service-IsReady_example =
    update_service-IsReady "kind" service (node ∷ []) env world is_updated

is_set_up : (setup_tunnels "web" [] env world).0.0 ≡ ok tt
unfolding setup_tunnels inspected ran port_maps string_eq ips split char_eq add_ip_command Dict.keys
    add_port protocol_of to_lower Dict.lookup Dict.insert port_of
is_set_up = refl

setup_tunnels-IsStarted_example :
    (portmaps : Dict String) × ((ipv4 : String) × ((prepare "web" env world).0
        ≡ ok (portmaps, ipv4))
      × ((port host_port : String)
          → Dict.lookup port portmaps ≡ some host_port
          → IsStarted "web" ipv4 portmaps port (setup_tunnels "web" [] env world).0.1))
setup_tunnels-IsStarted_example = setup_tunnels-IsStarted "web" [] env world is_set_up

abbrev tunnels : Tunnels
tunnels = ("api", []) ∷ []

api_is_not_web : ◌≢◌ {A = String} "api" "web"
unfolding string_eq
api_is_not_web = ne_of_== {A = String} "api" "web" refl
