-- ===== src/Tests/Labels/Kept.antt =====
-- That the runtime keeps the laws on labels.
use cloud_provider_kind.Base.{
  String, ◌<>◌, ◌==◌, ==-self, eq_of_==, string_eq, char_eq, nat_eq, Bool-cases, true, false, ◌≡◌,
  refl, ap, ◌∙◌, some, none, List, [], ◌∷◌, ◌⊎◌, inl, inr, In,
}
use cloud_provider_kind.Config.{node_ccm_label_key, load_balancer_name_label_key}
use cloud_provider_kind.Controller.Cancel.Created.{Labels, create_call}
use cloud_provider_kind.Controller.Cancel.Calls.{
  list_call, label_call, IsCancelling, cancels, lists, labels, closes, releases, creates,
  copies_logs, removes,
}
use cloud_provider_kind.Controller.Starting.{
  IsStarting, lists_clusters, asks, configures, parses, probes, waits, connects, gates, polls,
  checks, makes_service, runs_service, makes_nodes, runs_nodes, informs, ends,
}
use cloud_provider_kind.LoadBalancer.Names.{load_balancer_name}
use cloud_provider_kind.LoadBalancer.Server.Running.{rm_call}
use cloud_provider_kind.LoadBalancer.Tunnel.{remove_ip_command}
use cloud_provider_kind.Tests.Fixtures.{word}
use cloud_provider_kind.World.{Trace, Action}
use cloud_provider_kind.Tests.Labels.{
  strip, strip-append, quiet, event, Pair, label_words, has_words, is_labelled, names, matches,
  simple_of, labels_answer, docker, In-names, In-matching,
}

words_of :
    (p : Pair) (cluster simple : String)
    → has_words p cluster simple ≡ true
    → p
      ≡ some
          (node_ccm_label_key <> ("=" <> cluster), load_balancer_name_label_key <> ("=" <> simple))
words_of none cluster simple h = absurd (cc)
words_of (some (c, s)) cluster simple h =
    elim (Bool-cases (c == node_ccm_label_key <> ("=" <> cluster))) [
      | inr other ↦ let wrong : false ≡ true = rw other at h in absurd (cc)
      | inl same ↦
          let same_c = eq_of_== c _ same in
          let same_s = eq_of_== s _ (rw same at h) in rw (same_c, same_s) refl
    ]

module _ (h : Trace) (name id cluster simple : String)
    (l : is_labelled h name id cluster simple ≡ true) where
  id_is_name : id ≡ name
  unfolding is_labelled
  id_is_name = elim (Bool-cases (id == name)) [
    | inl same ↦ eq_of_== id name same
    | inr other ↦ let wrong : false ≡ true = rw other at l in absurd (cc)
  ]

  words_are :
      label_words h name
      ≡ some
          (node_ccm_label_key <> ("=" <> cluster), load_balancer_name_label_key <> ("=" <> simple))
  unfolding is_labelled
  words_are =
      let same : (id == name) ≡ true = rw id_is_name (==-self {A = String} name) in
      words_of (label_words h name) cluster simple (rw same at l)

pub is_labelled_lem :
    (h : Trace) (name cluster simple : String)
    → label_words h name
      ≡ some
          (node_ccm_label_key <> ("=" <> cluster), load_balancer_name_label_key <> ("=" <> simple))
    → is_labelled h name name cluster simple ≡ true
unfolding is_labelled
is_labelled_lem h name cluster simple are =
    rw
      (
        are,
        ==-self {A = String} name,
        ==-self {A = String} (node_ccm_label_key <> ("=" <> cluster)),
        ==-self {A = String} (load_balancer_name_label_key <> ("=" <> simple)),
      )
      refl

pub created_words :
    (h : Trace) (name cluster simple : String) (rest : List String)
    → label_words (create_call "docker" name cluster simple rest ∷ h) name
      ≡ some
          (node_ccm_label_key <> ("=" <> cluster), load_balancer_name_label_key <> ("=" <> simple))
unfolding label_words event word string_eq
created_words h name cluster simple rest = rw (==-self {A = String} name) refl

pub listed :
    (h : Trace) (name id cluster simple : String)
    → is_labelled h name id cluster simple ≡ true
    → ((labels_answer h (list_call "docker" node_ccm_label_key cluster)).1 ≡ none)
      × In id (labels_answer h (list_call "docker" node_ccm_label_key cluster)).0
unfolding labels_answer string_eq
listed h name id cluster simple l =
    let are = words_are h name id cluster simple l in
    let filter = "label=" <> (node_ccm_label_key <> ("=" <> cluster)) in
    let hit : matches (label_words h name) filter ≡ true = rw are (==-self {A = String} filter) in
    (
      refl,
      rw (id_is_name h name id cluster simple l)
          (In-matching h filter name (names h) hit (In-names h name _ are)),
    )

pub printed_label :
    (h : Trace) (name id cluster simple : String)
    → is_labelled h name id cluster simple ≡ true
    → labels_answer h (label_call "docker" id load_balancer_name_label_key) ≡ (simple ∷ [], none)
unfolding labels_answer string_eq
printed_label h name id cluster simple l =
    let are = words_are h name id cluster simple l in
    ap (λ (s : String). (s ∷ [], none))
      (ap (λ (n : String). simple_of (label_words h n)) (id_is_name h name id cluster simple l)
        ∙ ap simple_of are
        ∙ ap (λ (s : String). strip "=" s)
            (strip-append load_balancer_name_label_key ("=" <> simple))
        ∙ strip-append "=" simple)

quiet_words :
    (h : Trace) (a : Action) (name : String)
    → event a ≡ quiet
    → label_words (a ∷ h) name ≡ label_words h name
unfolding label_words
quiet_words h a name is = rw (is, label_words) refl

-- All calls of `cancelFn` but `rm` leave the containers alone.
quiet_calls :
    (a : Action)
    → IsCancelling docker a
    → (event a ≡ quiet) ⊎ ((name : String) × (a ≡ rm_call "docker" name))
unfolding event word string_eq remove_ip_command
quiet_calls _ (cancels cluster) = inl refl
quiet_calls _ (lists key value) = inl refl
quiet_calls _ (labels id key) = inl refl
quiet_calls _ (closes ln) = inl refl
quiet_calls _ (releases ip) = inl refl
quiet_calls _ (creates file) = inl refl
quiet_calls _ (copies_logs name file) = inl refl
quiet_calls _ (removes cluster_name web) = inr (load_balancer_name cluster_name web, refl)

removed_words :
    (h : Trace) (other name : String)
    → (other == name) ≡ false
    → label_words (rm_call "docker" other ∷ h) name ≡ label_words h name
unfolding label_words event word string_eq
removed_words h other name differ = rw differ refl

pub stays :
    (h : Trace) (a : Action) (name id cluster simple : String)
    → IsCancelling docker a
    → is_labelled h name id cluster simple ≡ true
    → (is_labelled (a ∷ h) name id cluster simple ≡ true) ⊎ (a ≡ rm_call "docker" name)
stays h a name id cluster simple c l =
    let are = words_are h name id cluster simple l in
    let same = id_is_name h name id cluster simple l in
    elim (quiet_calls a c) [
      | inl is ↦
          inl
            (rw same (is_labelled_lem (a ∷ h) name cluster simple (quiet_words h a name is ∙ are)))
      | inr (other, is) ↦ elim (Bool-cases (other == name)) [
        | inl this ↦ inr (is ∙ ap (λ (n : String). rm_call "docker" n) (eq_of_== other name this))
        | inr differ ↦ inl (
            rw (same, is)
              (is_labelled_lem _ name cluster simple (removed_words h other name differ ∙ are)))
      ]
    ]

-- No call that starts the manager of a cluster concerns a container.
quiet_start : (a : Action) → IsStarting a → event a ≡ quiet
unfolding event
quiet_start _ lists_clusters = refl
quiet_start _ asks = refl
quiet_start _ (configures cluster internal) = refl
quiet_start _ (parses kconfig) = refl
quiet_start _ (probes url) = refl
quiet_start _ (waits seconds) = refl
quiet_start _ (connects host) = refl
quiet_start _ gates = refl
quiet_start _ polls = refl
quiet_start _ (checks host) = refl
quiet_start _ (makes_service cluster) = refl
quiet_start _ (runs_service cluster) = refl
quiet_start _ (makes_nodes cluster) = refl
quiet_start _ (runs_nodes cluster) = refl
quiet_start _ (informs cluster) = refl
quiet_start _ (ends cluster) = refl

pub starts :
    (h : Trace) (a : Action) (name id cluster simple : String)
    → IsStarting a
    → is_labelled h name id cluster simple ≡ true
    → is_labelled (a ∷ h) name id cluster simple ≡ true
starts h a name id cluster simple s l = rw (id_is_name h name id cluster simple l) (
    is_labelled_lem (a ∷ h) name cluster simple
      (quiet_words h a name (quiet_start a s) ∙ words_are h name id cluster simple l))

pub docker-Labels : Labels docker
docker-Labels = record {
  labelled = is_labelled;
  create_lem = λ h name cluster simple rest _ _.
      (name, is_labelled_lem _ name cluster simple (created_words h name cluster simple rest));
  list_lem = listed;
  label_lem = λ h name id cluster simple _. printed_label h name id cluster simple;
  stays = stays;
  starts = starts;
}
