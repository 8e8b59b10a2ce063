-- ===== src/Tests/Control.antt =====
-- The controller and the configuration in a small cluster.
use cloud_provider_kind.Base.{
  String, ◌≡◌, refl, string_eq, char_eq, nat_eq, Bool, true, false, ◌⊎◌, some, none, [], ◌∷◌,
}
use cloud_provider_kind.Base.Dict
use cloud_provider_kind.Base.Text.{Lacks-of_lacks, has_substring}
use cloud_provider_kind.Cmd.{Flags, default_flags, configure, prepare, main}
use cloud_provider_kind.Cmd.Returns.{main_returns}
use cloud_provider_kind.Config.{Config, zero_config, load_balancer_name_label_key, portmap}
use cloud_provider_kind.Container.{get_label_value}
use cloud_provider_kind.Controller.Connect.{Ccm}
use cloud_provider_kind.Controller.Cancel.{delete_container}
use cloud_provider_kind.Controller.Cancel.Labels.{delete_container_lem}
use cloud_provider_kind.Controller.Kept.{round_failed_listing}
use cloud_provider_kind.Controller.Returns.{Context}
use cloud_provider_kind.Controller.Rounds.{Clusters, round, run_rounds}
use cloud_provider_kind.LoadBalancer.Names.{load_balancer_simple_name, load_balancer_name}
use cloud_provider_kind.Provider.{Cloud}
use cloud_provider_kind.Tests.Fixtures.{env, world, answer, service, inspected}
use cloud_provider_kind.World.{
  Err, errorf, ok, err, Trace, Action, Answer, run, list_clusters, ctx_done, done_within, Env,
  World,
}

abbrev cloud : Cloud
cloud = record { cluster_name = "kind"; lb_controller = record { tunnel_manager = none } }

abbrev manager : Ccm
manager = record { cluster_name = "kind"; cloud = cloud }

abbrev managed : Clusters
managed = ("kind", manager) ∷ []

-- The environment in which kind fails to list its clusters, and the context is done after a round.
failing_answer : Trace → (a : Action) → Answer a
failing_answer h list_clusters = ([], some (errorf "exit status 1"))
failing_answer h (done_within seconds) = true
failing_answer h a = answer h a

abbrev failing : Env
failing = record env { answer = failing_answer }

listing_fails : failing.answer [] list_clusters ≡ ([], some (errorf "exit status 1"))
unfolding failing_answer
listing_fails = refl

round_failed_listing_example : Dict.lookup "kind" (round managed failing world).0.1 ≡ none
round_failed_listing_example =
    round_failed_listing "kind" managed failing world (errorf "exit status 1") listing_fails

returns : (run_rounds 2 managed failing world).0.0 ≡ true
unfolding run_rounds round failing_answer
returns = refl

abbrev decided : World
decided = record { trace = []; config = zero_config; once_done = true }

abbrev flags : Flags
flags = record { enable_log_dump = false; log_dump_dir = ""; enable_lb_port_mapping = true }

abbrev configured : Config
configured = record {
  enable_log_dump = false;
  log_dir = "";
  load_balancer_connectivity = portmap;
  control_plane_connectivity = portmap;
}

is_configured : (configure flags env world).0 ≡ ok configured
unfolding configure has_substring string_eq
is_configured = refl

labelled :
    (get_label_value "0123456789ab" load_balancer_name_label_key env world).0
    ≡ ok (load_balancer_simple_name "kind" service)
unfolding get_label_value load_balancer_simple_name string_eq inspected
labelled = refl

delete_container_lem_example :
    (before : Trace) × ((delete_container cloud "0123456789ab" env world).1.trace
      ≡ run ("docker" ∷ "rm" ∷ "-f" ∷ load_balancer_name "kind" service ∷ []) none ∷ before)
delete_container_lem_example =
    delete_container_lem cloud "kind" service env "0123456789ab" world
      (Lacks-of_lacks "/" "kind" refl) (Lacks-of_lacks "/" "default" refl)
      (Lacks-of_lacks "/" "web" refl) labelled

-- The environment in which the context is done after four calls, and kind has no clusters.
has_four : Trace → Bool
has_four (a ∷ b ∷ c ∷ d ∷ h) = true
has_four h = false

late_answer : Trace → (a : Action) → Answer a
late_answer h ctx_done = has_four h
late_answer h (done_within seconds) = has_four h
late_answer h list_clusters = ([], none)
late_answer h a = answer h a

abbrev late : Env
late = record env { answer = late_answer }

context : Context late
unfolding has_four late_answer
context = record {
  done = has_four;
  stays_done = more;
  is_asked = λ h d. d;
  is_waited_for = λ h seconds d. d;
}
  where
    more : (h : Trace) (x : Action) → has_four h ≡ true → has_four (x ∷ h) ≡ true
    more [] x d = absurd (cc)
    more (a ∷ []) x d = absurd (cc)
    more (a ∷ b ∷ []) x d = absurd (cc)
    more (a ∷ b ∷ c ∷ h) x d = refl

-- `Main` goes on for a whole round before the context is done.
goes_round : (main 1 default_flags late world).0 ≡ ok (false, [])
unfolding main run_rounds round late_answer has_four has_substring string_eq Dict.keys
goes_round = refl

is_done : context.done (main 1 default_flags late world).1.trace ≡ true
unfolding main run_rounds round late_answer has_four has_substring string_eq context Dict.keys
is_done = refl

main_returns_example :
    ((x : Err) × ((prepare default_flags late world).0 ≡ err x)
      × ((main 2 default_flags late world).0 ≡ err x))
    ⊎ ((left : Clusters) × ((main 2 default_flags late world).0 ≡ ok (true, left))
        × ((c : String) → Dict.lookup c left ≡ none))
main_returns_example = main_returns late context 1 default_flags world is_done
