-- ===== src/Controller/Cleanup.antt =====
-- What is left when `Run` returns.
use cloud_provider_kind.Base.{
  String, ℕ, zero, suc, ◌==◌, string_eq, contains, if◌then◌else◌, Bool, Bool-cases, ◌≡◌, refl, ◌∙◌,
  arith, true, ◌||◌, none, Option, List, [], ◌∷◌, inl, inr, Option-cases,
}
use cloud_provider_kind.Base.Dict
use cloud_provider_kind.Base.Entries.{contains-order}
use cloud_provider_kind.Controller.Connect.{Ccm}
use cloud_provider_kind.Controller.Rounds.{Clusters, round, drop_all, cleanup, run_rounds}
use cloud_provider_kind.Controller.Kept.{lookup-drop_cluster}
use cloud_provider_kind.World.{Env, World}

lookup-drop_all :
    (e : Env) (c : String) (keys : List String) (clusters : Clusters) (w : World)
    → Dict.lookup c (drop_all keys clusters e w).0
      ≡ (if contains keys c then none else Dict.lookup c clusters)
unfolding drop_all
lookup-drop_all e c [] clusters w = refl
lookup-drop_all e c (k ∷ keys) clusters w =
    lookup-drop_all e c keys _ _
    ∙ rw (lookup-drop_cluster e c k clusters w) (merge (c == k) (contains keys c) _)
  where
    merge :
        (a b : Bool) (x : Option Ccm)
        → (if b then none else (if a then none else x)) ≡ (if a || b then none else x)
    merge a b x = ground arith

pub cleanup_lem :
    (e : Env) (c : String) (clusters : Clusters) (w : World)
    → Dict.lookup c (cleanup clusters e w).0 ≡ none
unfolding cleanup
cleanup_lem e c clusters w =
    let keys = e.order w.trace (Dict.keys clusters) in
    lookup-drop_all e c keys clusters w ∙ elim (Option-cases (Dict.lookup c clusters)) [
      | inl absent ↦ rw absent (nothing (contains keys c))
      | inr (m, there) ↦ rw (contains-order c m clusters keys (e.order-perm w.trace _) there)
    ]
  where
    nothing : (b : Bool) → if◌then◌else◌ {A = Option Ccm} b none none ≡ none
    nothing b = ground arith

-- When `Run` returns, however many rounds it made, no cluster has a manager left.
pub run_ends_empty :
    (n : ℕ) (c : String) (clusters : Clusters) (e : Env) (w : World)
    → (run_rounds n clusters e w).0.0 ≡ true
    → Dict.lookup c (run_rounds n clusters e w).0.1 ≡ none
unfolding run_rounds
run_ends_empty zero c clusters e w returned = absurd (ground arith)
run_ends_empty (suc n) c clusters e w returned = elim (Bool-cases (round clusters e w).0.0) [
  | inl done ↦ rw (done, run_rounds) (cleanup_lem e c _ _)
  | inr going ↦
      rw (going, run_rounds) (run_ends_empty n c _ e _ (rw (going, run_rounds) at returned))
]
