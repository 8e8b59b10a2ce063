-- ===== src/Controller/Returns.antt =====
-- That `Run` returns when its context is done.
use cloud_provider_kind.Base.{
  String, ℕ, zero, suc, string_eq, Bool, Bool-cases, true, false, ◌≡◌, refl, none, List, [], ◌∷◌,
  inl, inr, ◌⊎◌,
}
use cloud_provider_kind.Base.Dict
use cloud_provider_kind.Controller.Cleanup.{run_ends_empty}
use cloud_provider_kind.Controller.Dropped.{remove_expired-Keeps}
use cloud_provider_kind.Controller.Kept.{listing}
use cloud_provider_kind.Controller.Rounds.{Clusters, add_clusters, round, run_rounds}
use cloud_provider_kind.World.{Trace, Action, list_clusters, ctx_done, done_within, Env, World}

-- The documentation of `context.Context`: `Done` is closed once and stays closed, and both ways to
-- wait for it see that.
pub record Context (e : Env) : Type 0 where
  pub done : Trace → Bool
  pub stays_done : (h : Trace) (a : Action) → done h ≡ true → done (a ∷ h) ≡ true
  pub is_asked : (h : Trace) → done h ≡ true → e.answer h ctx_done ≡ true
  pub is_waited_for :
      (h : Trace) (seconds : ℕ) → done h ≡ true → e.answer h (done_within seconds) ≡ true

module _ (e : Env) (k : Context e) where
  abbrev IsDone : World → Type 0
  IsDone w = k.done w.trace ≡ true

  -- The loop over the listed clusters stops at once, if there is a cluster to stop at.
  add_clusters-IsDone :
      (listed : List String) (clusters : Clusters) (w : World)
      → IsDone w
      → ((add_clusters listed clusters e w).0.0 ≡ true)
        ⊎ (((add_clusters listed clusters e w).0.0 ≡ false)
            × IsDone (add_clusters listed clusters e w).1)
  unfolding add_clusters
  add_clusters-IsDone [] clusters w d = inr (refl, d)
  add_clusters-IsDone (c ∷ listed) clusters w d =
      let asked = k.is_asked w.trace d in inl (rw asked refl)

  round_done : (clusters : Clusters) (w : World) → IsDone w → (round clusters e w).0.0 ≡ true
  unfolding round
  round_done clusters w d =
      let w1 : World = record w { trace = list_clusters ∷ w.trace } in
      let d1 : IsDone w1 = k.stays_done w.trace list_clusters d in
      elim (add_clusters-IsDone (listing e w) clusters w1 d1) [
        | inl stopped ↦ rw (stopped, round) refl
        | inr (going, d2) ↦
            rw (going, round)
              (k.is_waited_for _ 30 (
                (remove_expired-Keeps e IsDone (λ a v _ h. k.stays_done v.trace a h) (listing e w) _
                    _).keep
                  _ d2))
      ]

  returns_next :
      (n : ℕ) (clusters : Clusters) (w : World)
      → IsDone (run_rounds n clusters e w).1
      → (run_rounds (suc n) clusters e w).0.0 ≡ true
  unfolding run_rounds
  returns_next zero clusters w d =
      let finished = round_done clusters w d in rw (finished, run_rounds) refl
  returns_next (suc n) clusters w d = elim (Bool-cases (round clusters e w).0.0) [
    | inl finished ↦ rw (finished, run_rounds) refl
    | inr going ↦ rw (going, run_rounds) (returns_next n _ _ (rw (going, run_rounds) at d))
  ]

-- However many rounds have gone by when the context is done, `Run` returns after one more at the
-- latest, and then no cluster has a manager left.
pub run_returns :
    (e : Env) (k : Context e) (n : ℕ) (clusters : Clusters) (w : World)
    → k.done (run_rounds n clusters e w).1.trace ≡ true
    → ((run_rounds (suc n) clusters e w).0.0 ≡ true)
      × ((c : String) → Dict.lookup c (run_rounds (suc n) clusters e w).0.1 ≡ none)
run_returns e k n clusters w d =
    let back = returns_next e k n clusters w d in
    (back, λ c. run_ends_empty (suc n) c clusters e w back)
