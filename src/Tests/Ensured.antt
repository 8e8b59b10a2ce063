-- ===== src/Tests/Ensured.antt =====
-- A load balancer that is set up, and one whose configuration cannot be written.
use cloud_provider_kind.Base.{
  String, ◌<>◌, ◌==◌, if◌then◌else◌, ◌≡◌, ◌≢◌, refl, ne_of_==, string_eq, char_eq, nat_eq, true,
  some, none, List, [], ◌∷◌, inl,
}
use cloud_provider_kind.Base.Dict
use cloud_provider_kind.Base.Decimal.{itoa}
use cloud_provider_kind.Base.Text.{split, to_lower, trim_space}
use cloud_provider_kind.Api.{Node, LoadBalancerStatus}
use cloud_provider_kind.Container.{
  ips, exec, is_running, exist, delete, create, port_maps, add_port, protocol_of, port_of,
}
use cloud_provider_kind.LoadBalancer.Names.{
  load_balancer_name, hash_name, load_balancer_simple_name,
}
use cloud_provider_kind.LoadBalancer.Proxy.Config.{config_data}
use cloud_provider_kind.LoadBalancer.Proxy.Template.{lds, cds, proxy_config}
use cloud_provider_kind.LoadBalancer.Proxy.Update.{
  proxy_config_path_lds, proxy_config_path_cds, update_service, proxy_update_load_balancer, is_live,
  wait_load_balancer_ready,
}
use cloud_provider_kind.LoadBalancer.Proxy.Update.Files.{write_call, temporary}
use cloud_provider_kind.LoadBalancer.Proxy.Update.Installed.{
  update_service_files, update_service_stops,
}
use cloud_provider_kind.LoadBalancer.Proxy.Update.Ready.{IsReady}
use cloud_provider_kind.LoadBalancer.Server.{
  Server, status_of, ensured, lookup_of, remove_stale, create_missing, ensure_container,
  ensure_tunnels, ensure_load_balancer,
}
use cloud_provider_kind.LoadBalancer.Server.Create.{create_load_balancer}
use cloud_provider_kind.LoadBalancer.Server.Ensured.{
  created, updated, tunnelled, ensure_load_balancer_lem, ensure_load_balancer_hides,
}
use cloud_provider_kind.Tests.Files.{files}
use cloud_provider_kind.Tests.Fixtures.{
  env, world, answer, service, node, net, ran, word, inspected, runtime-IsAlone, runtime,
}
use cloud_provider_kind.World.{
  Err, errorf, wrapf, output_lines, World, Result, ok, err, Trace, Action, Answer, run, Env,
}

abbrev nodes : List Node
nodes = node ∷ []

abbrev text_of : Result String → String
text_of (ok text) = text
text_of (err x) = ""

abbrev lds_text : String
lds_text = text_of (proxy_config lds (config_data net service nodes))

abbrev cds_text : String
cds_text = text_of (proxy_config cds (config_data net service nodes))

lds_is_rendered : proxy_config lds (config_data net service nodes) ≡ ok lds_text
unfolding proxy_config config_data string_eq
lds_is_rendered = refl

cds_is_rendered : proxy_config cds (config_data net service nodes) ≡ ok cds_text
unfolding proxy_config config_data string_eq
cds_is_rendered = refl

abbrev name : String
name = load_balancer_name "kind" service

is_updated : (update_service "kind" service nodes env world).0 ≡ ok tt
unfolding update_service ran inspected proxy_config exec string_eq wait_load_balancer_ready
    port_maps Dict.lookup Dict.keys add_port protocol_of split char_eq to_lower Dict.insert port_of
    itoa nat_eq is_live trim_space
is_updated = refl

update_service_files_example :
    ((files answer).content
        (update_service "kind" service nodes env world).1.trace
        name
        proxy_config_path_lds
      ≡ some lds_text)
    × ((files answer).content
          (update_service "kind" service nodes env world).1.trace
          name
          proxy_config_path_cds
        ≡ some cds_text)
update_service_files_example =
    update_service_files env (files answer) "kind" service nodes lds_text cds_text world
      lds_is_rendered cds_is_rendered is_updated

abbrev disk_full : Err
disk_full = errorf "no space left on device"

full_answer : Trace → (a : Action) → Answer a
full_answer h (run argv (some text)) = record { stdout = ""; stderr = ""; error = some disk_full }
full_answer h a = answer h a

abbrev full : Env
full = record env { answer = full_answer }

write_fails :
    (full.answer [] (write_call "docker" name proxy_config_path_lds lds_text)).error
    ≡ some disk_full
unfolding full_answer
write_fails = refl

is_not_lds_tmp : ◌≢◌ {A = String} proxy_config_path_lds (temporary proxy_config_path_lds)
unfolding string_eq
is_not_lds_tmp = ne_of_== {A = String} _ _ refl

is_not_cds_tmp : ◌≢◌ {A = String} proxy_config_path_lds (temporary proxy_config_path_cds)
unfolding string_eq
is_not_cds_tmp = ne_of_== {A = String} _ _ refl

update_service_stops_example :
    ((update_service "kind" service nodes full world).0 ≡ err disk_full)
    × ((files full_answer).content
          (update_service "kind" service nodes full world).1.trace
          name
          proxy_config_path_lds
        ≡ (files full_answer).content world.trace name proxy_config_path_lds)
update_service_stops_example =
    update_service_stops full (files full_answer) "kind" service nodes lds_text cds_text
      proxy_config_path_lds disk_full world lds_is_rendered cds_is_rendered is_not_lds_tmp
      is_not_cds_tmp (inl write_fails)

abbrev server : Server
server = record { tunnel_manager = none }

abbrev status : LoadBalancerStatus
status = status_of service ("192.168.8.9", "")

is_ensured : (ensure_load_balancer server "kind" service nodes env world).0.0 ≡ ok status
unfolding ensure_load_balancer create_missing remove_stale create_load_balancer ran exist string_eq
    is_running delete load_balancer_name hash_name load_balancer_simple_name create update_service
    inspected proxy_config exec wait_load_balancer_ready port_maps Dict.lookup Dict.keys add_port
    protocol_of split char_eq to_lower Dict.insert port_of itoa nat_eq is_live trim_space ips
    proxy_update_load_balancer ensured lookup_of
is_ensured = refl

ensure_load_balancer_lem_example :
    (runtime.live (created server "kind" service nodes env world).1.trace name ≡ true)
    × IsReady env name (updated server "kind" service nodes env world).1.trace
    × ((files answer).content
          (updated server "kind" service nodes env world).1.trace
          name
          proxy_config_path_lds
        ≡ some lds_text)
    × ((files answer).content
          (updated server "kind" service nodes env world).1.trace
          name
          proxy_config_path_cds
        ≡ some cds_text)
    × ((both : String × String) × ((ips name env
            (tunnelled server "kind" service nodes env world).1).0
          ≡ ok both)
        × (status ≡ status_of service both))
ensure_load_balancer_lem_example =
    ensure_load_balancer_lem server "kind" service nodes env runtime (files answer) world status
      lds_text cds_text (runtime-IsAlone name) lds_is_rendered cds_is_rendered is_ensured

-- The environment in which the addresses of a container cannot be read.
unreadable_answer : Trace → (a : Action) → Answer a
unfolding word
unreadable_answer h (output_lines argv) =
    if word 3 argv == "{{ json .NetworkSettings.Ports }}"
    then ("{}" ∷ [], none)
    else ([], some (errorf "exit status 1"))
unreadable_answer h a = answer h a

abbrev unreadable : Env
unreadable = record env { answer = unreadable_answer }

abbrev ready : Result (Unit {0}) × World
ready = ensure_container server "kind" service nodes unreadable world

is_ready : ready.0 ≡ ok tt
unfolding ensure_container unreadable_answer ensure_load_balancer create_missing remove_stale
    create_load_balancer ran exist string_eq is_running delete load_balancer_name hash_name
    load_balancer_simple_name create update_service inspected proxy_config exec
    wait_load_balancer_ready port_maps Dict.lookup Dict.keys add_port protocol_of split char_eq
    to_lower Dict.insert port_of itoa nat_eq is_live trim_space ips proxy_update_load_balancer
    ensured lookup_of
is_ready = refl

has_tunnels : (ensure_tunnels server name unreadable ready.1).0.0 ≡ ok tt
unfolding ensure_tunnels
has_tunnels = refl

abbrev unread : Err
unread = wrapf "failed to get container details: " (errorf "exit status 1")

is_unread : (ips name unreadable (ensure_tunnels server name unreadable ready.1).1).0 ≡ err unread
unfolding ips ensure_tunnels unreadable_answer word string_eq
is_unread = refl

ensure_load_balancer_hides_example :
    (ensure_load_balancer server "kind" service nodes unreadable world).0.0
    ≡ err (errorf ("loadbalancer " <> (name <> " not found")))
ensure_load_balancer_hides_example =
    ensure_load_balancer_hides server "kind" service nodes unreadable world unread is_ready
      has_tunnels is_unread
