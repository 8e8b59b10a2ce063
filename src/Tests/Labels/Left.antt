-- ===== src/Tests/Labels/Left.antt =====
-- A container that an earlier run of the program has left, and a cluster that goes.
use cloud_provider_kind.Base.{
  String, ◌<>◌, ==-self, contains, string_eq, char_eq, nat_eq, if◌then◌else◌, Bool, true, false,
  ◌≡◌, refl, some, none, [], ◌∷◌, ◌++◌, In,
}
use cloud_provider_kind.Base.Dict
use cloud_provider_kind.Base.Text.{Lacks-of_lacks}
use cloud_provider_kind.Controller.Cancel.Calls.{
  IsCancelling, cancels, lists, labels, closes, releases, creates, copies_logs, removes,
}
use cloud_provider_kind.Controller.Cancel.Created.{Labels, IsLabelled}
use cloud_provider_kind.Config.{node_ccm_label_key, load_balancer_name_label_key}
use cloud_provider_kind.Container.{create}
use cloud_provider_kind.Controller.Connect.{get_kube_client, start_cloud_controller_manager}
use cloud_provider_kind.Controller.Emptied.{IsPlain, cleanup_removes, round_removes}
use cloud_provider_kind.Controller.Kept.{listing, addition}
use cloud_provider_kind.Controller.Rounds.{round, cleanup}
use cloud_provider_kind.Controller.System.{System, system, Reach, start, later, rounds}
use cloud_provider_kind.LoadBalancer.Names.{load_balancer_name, load_balancer_simple_name}
use cloud_provider_kind.LoadBalancer.Server.Create.{create_args, create_load_balancer}
use cloud_provider_kind.LoadBalancer.Server.Running.{rm_call}
use cloud_provider_kind.Tests.Fixtures.{service, word}
use cloud_provider_kind.Tests.Labels.{event, label_words, labels_answer, is_labelled, docker}
use cloud_provider_kind.Tests.Labels.Kept.{
  is_labelled_lem, created_words, listed, printed_label, stays, starts,
}
use cloud_provider_kind.Tests.Labels.Made.{made, manager, is_one_line}
use cloud_provider_kind.World.{Trace, Action, Answer, list_clusters, Env}

-- The environment in which kind lists its cluster once, and nothing after that.
has_listed : Trace → Bool
has_listed [] = false
has_listed (list_clusters ∷ h) = true
has_listed (a ∷ h) = has_listed h

leaving_answer : Trace → (a : Action) → Answer a
leaving_answer h list_clusters = ((if has_listed h then [] else "kind" ∷ []), none)
leaving_answer h a = labels_answer h a

abbrev leaving : Env
leaving = record docker { answer = leaving_answer }

in_docker : (a : Action) → IsCancelling leaving a → IsCancelling docker a
in_docker _ (cancels cluster) = cancels cluster
in_docker _ (lists key value) = lists key value
in_docker _ (labels id key) = labels id key
in_docker _ (closes ln) = closes ln
in_docker _ (releases ip) = releases ip
in_docker _ (creates file) = creates file
in_docker _ (copies_logs name file) = copies_logs name file
in_docker _ (removes cluster web) = removes cluster web

leaving_labels : Labels leaving
unfolding leaving_answer
leaving_labels = record {
  labelled = is_labelled;
  create_lem = λ h name cluster simple rest _ _.
      (name, is_labelled_lem _ name cluster simple (created_words h name cluster simple rest));
  list_lem = listed;
  label_lem = λ h name id cluster simple _. printed_label h name id cluster simple;
  stays = λ h a name id cluster simple c. stays h a name id cluster simple (in_docker a c);
  starts = starts;
}

-- After a round, the cluster has a manager.
abbrev ready : System
ready = system ((round [] leaving made.1).0.1, (round [] leaving made.1).1)

is_reached : Reach leaving made.1 ready
is_reached = later start rounds

is_managed : Dict.lookup "kind" ready.clusters ≡ some manager
unfolding round leaving_answer has_listed labels_answer Dict.lookup create_load_balancer create
    Dict.keys get_kube_client start_cloud_controller_manager nat_eq Dict.insert string_eq
is_managed = refl

is_plain : IsPlain "kind" service
is_plain = record {
  cluster_lacks = Lacks-of_lacks "/" "kind" refl;
  namespace_lacks = Lacks-of_lacks "/" "default" refl;
  name_lacks = Lacks-of_lacks "/" "web" refl;
  one_line = is_one_line;
}

abbrev name : String
name = load_balancer_name "kind" service

words_there :
    label_words ready.world.trace name
    ≡ some (
      node_ccm_label_key <> ("=" <> "kind"),
      load_balancer_name_label_key <> ("=" <> load_balancer_simple_name "kind" service),
    )
unfolding label_words event word round leaving_answer has_listed labels_answer create_load_balancer
    create Dict.keys Dict.lookup get_kube_client start_cloud_controller_manager nat_eq Dict.insert
    string_eq create_args load_balancer_simple_name
words_there = rw (==-self {A = String} name) refl

has_labels : IsLabelled leaving leaving_labels "kind" service name ready.world.trace
unfolding leaving_labels
has_labels = is_labelled_lem _ name "kind" (load_balancer_simple_name "kind" service) words_there

cleanup_removes_example :
    (calls : Trace) × ((cleanup ready.clusters leaving ready.world).1.trace
      ≡ calls ++ ready.world.trace)
    × In (rm_call "docker" name) calls
cleanup_removes_example =
    cleanup_removes leaving leaving_labels made.1 ready "kind" manager service name is_reached
      is_managed is_plain has_labels

goes_on : (addition ready.clusters leaving ready.world).0.0 ≡ false
unfolding round leaving_answer has_listed labels_answer create_load_balancer create Dict.keys
    Dict.lookup get_kube_client start_cloud_controller_manager nat_eq Dict.insert string_eq
goes_on = refl

is_expired : contains (listing leaving ready.world) "kind" ≡ false
unfolding round leaving_answer has_listed labels_answer create_load_balancer create Dict.keys
    Dict.lookup get_kube_client start_cloud_controller_manager nat_eq Dict.insert string_eq
is_expired = refl

round_removes_example :
    (calls : Trace) × ((round ready.clusters leaving ready.world).1.trace
      ≡ calls ++ ready.world.trace)
    × In (rm_call "docker" name) calls
round_removes_example =
    round_removes leaving leaving_labels made.1 ready "kind" manager service name is_reached
      is_managed is_expired goes_on is_plain has_labels
