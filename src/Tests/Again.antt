-- ===== src/Tests/Again.antt =====
-- A host whose interface has its addresses until they are taken away.
use cloud_provider_kind.Base.{
  String, ◌==◌, ==-self, ◌≡◌, refl, string_eq, if◌then◌else◌, Bool, true, false, ◌&&◌, some, [],
  ◌∷◌, arith,
}
use cloud_provider_kind.Base.Dict
use cloud_provider_kind.Config.{zero_config}
use cloud_provider_kind.Controller.Cancel.Again.{Loopback, after_deletions, deleted_again_fails}
use cloud_provider_kind.Controller.Cancel.Calls.{
  IsCancelling, cancels, lists, labels, closes, releases, creates, copies_logs, removes,
}
use cloud_provider_kind.LoadBalancer.Names.{load_balancer_name}
use cloud_provider_kind.LoadBalancer.Server.{remove_server_tunnels}
use cloud_provider_kind.LoadBalancer.Tunnel.{
  Tunnels, remove_ip_command, remove_tunnels, stop_all, stop, remove_ip_from_local_interface,
}
use cloud_provider_kind.LoadBalancer.Tunnel.Stopped.{removal_of}
use cloud_provider_kind.Provider.{Cloud, new_cloud, ensure_load_balancer_deleted}
use cloud_provider_kind.Tests.Fixtures.{env, world, service, answer, ran, word, fails_unless}
use cloud_provider_kind.Tests.Tunnels.{up, started, has_port, started-IsAt, is_an_address}
use cloud_provider_kind.World.{Err, errorf, ok, err, Trace, Action, Answer, run, Env}

-- Whether an address is on the interface: at first all are.
unfoldable on : Trace → String → Bool
on [] ip = true
on (run (program ∷ object ∷ verb ∷ a ∷ rest) stdin ∷ h) ip =
    if verb == "del" && a == ip then false else if verb == "add" && a == ip then true else on h ip
on (_ ∷ h) ip = on h ip

loop_answer : Trace → (a : Action) → Answer a
unfolding on word
loop_answer h (run argv stdin) =
    if word 2 argv == "del"
    then record { stdout = ""; stderr = ""; error = fails_unless (on h (word 3 argv)) }
    else ran h argv
loop_answer h a = answer h a

abbrev host : Env
host = record env { answer = loop_answer }

on-stays :
    (h : Trace) (a : Action) (ip : String)
    → IsCancelling host a
    → on h ip ≡ false
    → on (a ∷ h) ip ≡ false
unfolding on remove_ip_command string_eq
on-stays h _ ip (cancels cluster) off = off
on-stays h _ ip (lists key value) off = off
on-stays h _ ip (labels id key) off = off
on-stays h _ ip (closes ln) off = off
on-stays h _ ip (releases gone) off = ground (arith, off)
on-stays h _ ip (creates file) off = off
on-stays h _ ip (copies_logs name file) off = off
on-stays h _ ip (removes cluster_name fake) off = off

on-taken : (h : Trace) (ip : String) → on (removal_of host ip ∷ h) ip ≡ false
unfolding on remove_ip_command
on-taken h ip = rw (==-self {A = String} "del", ==-self {A = String} ip) refl

loopback : Loopback host
unfolding remove_ip_command loop_answer word string_eq
loopback = record {
  has = on;
  taken = λ h ip _. on-taken h ip;
  absent = λ h ip off. (errorf "exit status 1", rw off refl);
  stays = on-stays;
}

abbrev tunnels : Tunnels
tunnels = (load_balancer_name "kind" service, started) ∷ []

abbrev cloud : Cloud
cloud = record (new_cloud "kind" zero_config) {
  lb_controller = record { tunnel_manager = some tunnels };
}

has_service : Dict.lookup (load_balancer_name "kind" service) tunnels ≡ some started
unfolding Dict.lookup
has_service = rw (==-self {A = String} (load_balancer_name "kind" service)) refl

is_removed :
    (remove_server_tunnels cloud.lb_controller (load_balancer_name "kind" service) host world).0
    ≡ ok tt
unfolding remove_server_tunnels remove_tunnels loop_answer stop_all Dict.keys
    remove_ip_from_local_interface remove_ip_command stop word on string_eq
is_removed = rw (has_service, remove_tunnels) (rw (has_port, stop_all) refl)

deleted_again_fails_example :
    (x : Err) × ((ensure_load_balancer_deleted cloud "kind" service host
        (after_deletions 2 cloud "kind" service host world)).0
      ≡ err x)
deleted_again_fails_example =
    deleted_again_fails host loopback "192.168.8.9" cloud "kind" service "80" up started tunnels
      world 1 refl has_service has_port started-IsAt is_an_address is_removed
