-- ===== src/Tests/Rounds.antt =====
-- Rounds of the controller that find a cluster and a client for it.
use cloud_provider_kind.Base.{
  String, ◌≤◌, ◌≡◌, refl, contains, string_eq, char_eq, nat_eq, Bool, true, false, some, none, [],
  ◌∷◌, ◌⊎◌, ◌++◌,
}
use cloud_provider_kind.Base.Dict
use cloud_provider_kind.Config.{Connectivity, zero_config, direct, tunnel}
use cloud_provider_kind.Controller.Added.{round_adds}
use cloud_provider_kind.Controller.Connect.{
  Ccm, client, skipped, attempt, get_kube_client, start_cloud_controller_manager,
}
use cloud_provider_kind.Controller.Connect.Bounds.{requests, slept, get_kube_client_bounds}
use cloud_provider_kind.Controller.First.{get_kube_client_decides}
use cloud_provider_kind.Controller.Kept.{listing, addition}
use cloud_provider_kind.Controller.Rounds.{Clusters, round, start_cluster}
use cloud_provider_kind.Controller.System.{
  Call, ensure, serve, System, system, serves, rounds, Reach, start, later,
}
use cloud_provider_kind.Controller.System.Mode.{has_tunnel_manager}
use cloud_provider_kind.Controller.System.Owned.{AllOwned, Reach-AllOwned}
use cloud_provider_kind.Tests.Fixtures.{env, world, service, node}
use cloud_provider_kind.Cmd.{Flags, prepare}
use cloud_provider_kind.Cmd.Connectivity.{IsWanted}
use cloud_provider_kind.Cmd.Decides.{uses_tunnels, prepare-AllInMode}
use cloud_provider_kind.World.{Err, ok, err, Trace, windows, list_clusters, read_file, Env, World}

get_kube_client_decides_example :
    ((host : String)
      → (get_kube_client "kind" env world).0 ≡ ok host
      → ((get_kube_client "kind" env world).1.once_done ≡ true)
        × ((((attempt "kind" true env world).0 ≡ client host)
              × ((get_kube_client "kind" env world).1.config
                  ≡ record zero_config { control_plane_connectivity = direct }))
            ⊎ (((attempt "kind" true env world).0 ≡ skipped)
                × ((get_kube_client "kind" env world).1.config ≡ zero_config))))
    × ((x : Err)
        → (get_kube_client "kind" env world).0 ≡ err x
        → ((get_kube_client "kind" env world).1.config ≡ zero_config)
          × ((get_kube_client "kind" env world).1.once_done ≡ false))
get_kube_client_decides_example = get_kube_client_decides "kind" env world refl

goes_on : (addition [] env world).0.0 ≡ false
unfolding round Dict.lookup string_eq
goes_on = refl

is_listed : contains (listing env world) "kind" ≡ true
unfolding string_eq
is_listed = refl

round_adds_example :
    ((m : Ccm) × (Dict.lookup "kind" (round [] env world).0.1 ≡ some m))
    ⊎ ((Dict.lookup {V = Ccm} "kind" [] ≡ none)
        × ((v : World) × ((calls : Trace) × (v.trace ≡ calls ++ list_clusters ∷ world.trace))
            × ((x : Err) × ((start_cluster "kind" env v).0 ≡ err x))))
round_adds_example = round_adds "kind" [] env world goes_on is_listed

-- A cluster that is added, and whose service controller then asks for a load balancer.
abbrev on_desktop : World
on_desktop = record {
  trace = [];
  config = record zero_config { load_balancer_connectivity = tunnel };
  once_done = false;
}

abbrev added : (Bool × Clusters) × World
added = round [] env on_desktop

abbrev desktop_manager : Ccm
desktop_manager = record {
  cluster_name = "kind";
  cloud = record { cluster_name = "kind"; lb_controller = record { tunnel_manager = some [] } };
}

abbrev ensuring : Call
ensuring = ensure service (node ∷ [])

has_desktop_manager : Dict.lookup "kind" added.0.1 ≡ some desktop_manager
unfolding round Dict.lookup string_eq start_cluster get_kube_client attempt
    start_cloud_controller_manager nat_eq Dict.keys Dict.insert
has_desktop_manager = refl

abbrev served : System
served = system (
  Dict.insert "kind" (serve ensuring desktop_manager env added.1).0 added.0.1,
  (serve ensuring desktop_manager env added.1).1,
)

served-Reach : Reach env on_desktop served
served-Reach =
    later (later start rounds) (serves "kind" desktop_manager ensuring has_desktop_manager)

Reach-AllOwned_example : AllOwned served.clusters
Reach-AllOwned_example = Reach-AllOwned env on_desktop served served-Reach

-- A round after the flags have been read on another platform.
abbrev windows_env : Env
windows_env = record env { platform = windows }

abbrev no_flags : Flags
no_flags = record { enable_log_dump = false; log_dump_dir = ""; enable_lb_port_mapping = false }

is_prepared : (prepare no_flags windows_env world).0 ≡ ok tt
unfolding prepare
is_prepared = refl

abbrev prepared : World
prepared = (prepare no_flags windows_env world).1

abbrev first_round : System
first_round = system ((round [] windows_env prepared).0.1, (round [] windows_env prepared).1)

prepare-AllInMode_example :
    (h : Trace) × ((mode : Connectivity) × IsWanted no_flags windows_env
        (windows_env.answer h (read_file "/proc/version"))
        mode
      × (first_round.world.config.load_balancer_connectivity ≡ mode)
      × ((c : String) (m : Ccm)
          → Dict.lookup c first_round.clusters ≡ some m
          → has_tunnel_manager m.cloud.lb_controller ≡ uses_tunnels mode))
prepare-AllInMode_example =
    prepare-AllInMode no_flags windows_env world first_round is_prepared (later start rounds)

get_kube_client_bounds_example :
    (requests (get_kube_client "kind" env world).1.trace ≤ 10)
    × (slept (get_kube_client "kind" env world).1.trace ≤ 20)
unfolding requests slept
get_kube_client_bounds_example = get_kube_client_bounds "kind" env world
