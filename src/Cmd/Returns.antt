-- ===== src/Cmd/Returns.antt =====
-- That `Main` comes to an end.
use cloud_provider_kind.Base.{String, ℕ, suc, true, ◌≡◌, refl, none, [], ◌⊎◌, inl, inr}
use cloud_provider_kind.Base.Dict
use cloud_provider_kind.Cmd.{Flags, prepare, main}
use cloud_provider_kind.Controller.Returns.{Context, run_returns}
use cloud_provider_kind.Controller.Rounds.{Clusters, run_rounds}
use cloud_provider_kind.World.{Err, ok, err, Env, World, Result-cases}

-- `Main` either ends with an error before the controller has run a round, or it returns when a
-- signal has made the context done, however many rounds of the controller have gone by: after one
-- more round at the latest, and then no cluster has a manager left.
pub main_returns :
    (e : Env) (k : Context e) (n : ℕ) (f : Flags) (w : World)
    → k.done (main n f e w).1.trace ≡ true
    → ((x : Err) × ((prepare f e w).0 ≡ err x) × ((main (suc n) f e w).0 ≡ err x))
      ⊎ ((left : Clusters) × ((main (suc n) f e w).0 ≡ ok (true, left))
          × ((c : String) → Dict.lookup c left ≡ none))
unfolding main run_rounds
main_returns e k n f w d = elim (Result-cases (prepare f e w).0) [
  | inr (x, failed) ↦ inl (x, failed, rw failed refl)
  | inl (_, ready) ↦
      let (back, empty) = run_returns e k n [] (prepare f e w).1 (rw ready at d) in
      inr ((run_rounds (suc n) [] e (prepare f e w).1).0.1, rw (ready, back) refl, empty)
]
