-- ===== src/Tests/Labels.antt =====
-- A runtime that keeps the labels of containers; a container has its name for an id.
mod Kept
mod Made
mod Left
use Prim.Native.String
use Prim.Native.String.append
use cloud_provider_kind.Base.{
  String, ◌<>◌, ◌==◌, ==-self, eq_of_==, string_eq, char_eq, nat_eq, if◌then◌else◌, Bool,
  Bool-cases, true, false, ◌&&◌, arith, ◌≡◌, ◌≢◌, refl, sym, ap, ◌∙◌, Option, Option-cases, some,
  none, List, [], ◌∷◌, ◌++◌, ◌⊎◌, inl, inr, In,
}
use cloud_provider_kind.Base.Text.{Lacks, Lacks-of_lacks}
use cloud_provider_kind.Config.{node_ccm_label_key, load_balancer_name_label_key}
use cloud_provider_kind.Container.{create}
use cloud_provider_kind.Controller.Cancel.{cancel_fn}
use cloud_provider_kind.Controller.Cancel.Created.{Labels, create_call, IsRest}
use cloud_provider_kind.Controller.Cancel.Calls.{
  list_call, label_call, IsCancelling, cancels, lists, labels, closes, releases, creates,
  copies_logs, removes,
}
use cloud_provider_kind.Controller.Cancel.Removed.{created_is_removed}
use cloud_provider_kind.Controller.Connect.{Ccm}
use cloud_provider_kind.LoadBalancer.Names.{load_balancer_name, load_balancer_simple_name}
use cloud_provider_kind.LoadBalancer.Proxy.Update.{proxy_image}
use cloud_provider_kind.LoadBalancer.Server.Create.{create_load_balancer}
use cloud_provider_kind.LoadBalancer.Server.Running.{rm_call}
use cloud_provider_kind.LoadBalancer.Tunnel.{remove_ip_command}
use cloud_provider_kind.Provider.{Cloud}
use cloud_provider_kind.Tests.Fixtures.{env, world, answer, service, word, ran}
use cloud_provider_kind.World.{
  Err, Result, ok, Trace, Action, Answer, run, output_lines, Env, World,
}

-- What is left of a text behind a prefix.
unfoldable strip : String → String → String
strip String.[] t = t
strip (String.◌∷◌ c k) String.[] = ""
strip (String.◌∷◌ c k) (String.◌∷◌ d t) = strip k t

strip-append : (k t : String) → strip k (k <> t) ≡ t
unfolding strip
strip-append String.[] t = append.nil t
strip-append (String.◌∷◌ c k) t = rw append.cons (strip-append k t)

abbrev Pair : Type 0
Pair = Option (String × String)

-- What a call does to the containers: the first three words are a name and both labels.
data Event : Type 0 where
  created : String → String → String → Event
  gone : String → Event
  quiet : Event

unfoldable event : Action → Event
unfolding word
event (run argv stdin) =
    if word 1 argv == "run"
    then created (word 3 argv) (word 7 argv) (word 9 argv)
    else if word 1 argv == "rm"
    then gone (word 3 argv)
    else quiet
event a = quiet

-- The words of the two labels that a container has, by its name.
unfoldable label_words : Trace → String → Pair
unfolding event
label_words [] name = none
label_words (a ∷ h) name =
    let before = label_words h name in
    elim (event a) [
      | created n c s ↦ if n == name then some (c, s) else before
      | gone n ↦ if n == name then none else before
      | quiet ↦ before
    ]

abbrev has_words : Pair → String → String → Bool
has_words none cluster simple = false
has_words (some (c, s)) cluster simple =
    (c == node_ccm_label_key <> ("=" <> cluster))
    && (s == load_balancer_name_label_key <> ("=" <> simple))

unfoldable is_labelled : Trace → String → String → String → String → Bool
unfolding label_words
is_labelled h name id cluster simple = (id == name) && has_words (label_words h name) cluster simple

-- The names of all containers that have been made.
unfoldable names : Trace → List String
unfolding event
names [] = []
names (a ∷ h) =
    let before = names h in
    elim (event a) [ created n c s ↦ n ∷ before | gone n ↦ before | quiet ↦ before ]

abbrev matches : Pair → String → Bool
matches none filter = false
matches (some (c, s)) filter = "label=" <> c == filter

unfoldable matching : Trace → String → List String → List String
unfolding label_words
matching h filter [] = []
matching h filter (n ∷ ns) =
    let rest = matching h filter ns in if matches (label_words h n) filter then n ∷ rest else rest

abbrev simple_of : Pair → String
simple_of none = ""
simple_of (some (c, s)) = strip "=" (strip load_balancer_name_label_key s)

unfoldable labels_answer : Trace → (a : Action) → Answer a
unfolding word names matching strip
labels_answer h (output_lines argv) =
    if word 1 argv == "ps"
    then (matching h (word 4 argv) (names h), none)
    else (simple_of (label_words h (word 4 argv)) ∷ [], none)
labels_answer h a = answer h a

abbrev docker : Env
docker = record env { answer = labels_answer }

Event-cases :
    (v : Event)
    → ((n c s : String) × (v ≡ created n c s)) ⊎ (((n : String) × (v ≡ gone n)) ⊎ (v ≡ quiet))
Event-cases (created n c s) = inl (n, c, s, refl)
Event-cases (gone n) = inr (inl (n, refl))
Event-cases quiet = inr (inr refl)

In-names :
    (h : Trace) (name : String) (p : String × String)
    → label_words h name ≡ some p
    → In name (names h)
unfolding label_words names
In-names [] name p is = absurd (cc)
In-names (a ∷ h) name p is = elim (Event-cases (event a)) [
  | inl (n, c, s, made) ↦ elim (Bool-cases (n == name)) [
    | inl same ↦ rw (made, names) (inl (sym (eq_of_== n name same)))
    | inr other ↦ rw (made, names) (inr (In-names h name p (rw (made, other, label_words) at is)))
  ]
  | inr (inl (n, went)) ↦ elim (Bool-cases (n == name)) [
    | inl same ↦ let wrong : none ≡ some p = rw (went, same, label_words) at is in absurd (cc)
    | inr other ↦ rw (went, names) (In-names h name p (rw (went, other, label_words) at is))
  ]
  | inr (inr nothing) ↦ rw (nothing, names) (In-names h name p (rw (nothing, label_words) at is))
]

In-matching :
    (h : Trace) (filter name : String) (ns : List String)
    → matches (label_words h name) filter ≡ true
    → In name ns
    → In name (matching h filter ns)
unfolding matching
In-matching h filter name [] m i = elim i [ ]
In-matching h filter name (n ∷ ns) m (inl here) = rw (← here, m, matching) (inl refl)
In-matching h filter name (n ∷ ns) m (inr i) =
    let rest = In-matching h filter name ns m i in
    elim (Bool-cases (matches (label_words h n) filter)) [
      | inl hit ↦ rw (hit, matching) (inr rest)
      | inr miss ↦ rw (miss, matching) rest
    ]
