-- ===== src/Controller/System/Client.antt =====
-- The connectivity of the load balancers, which the first client of a cluster leaves as it is.
use cloud_provider_kind.Base.{Bool, Bool-cases, true, false, ◌≡◌, inl, inr}
use cloud_provider_kind.Config.{Connectivity}
use cloud_provider_kind.Controller.Connect.{decide_connectivity}
use cloud_provider_kind.World.{Env, World}

-- The load balancers are reached in this way, as `Main` has decided.
abbrev pub IsMode : Connectivity → World → Type 0
IsMode k w = w.config.load_balancer_connectivity ≡ k

module _ (e : Env) (k : Connectivity) where
  pub decide_connectivity-IsMode :
      (internal : Bool) (w : World) → IsMode k w → IsMode k (decide_connectivity internal e w).1
  unfolding decide_connectivity
  decide_connectivity-IsMode true w h = elim (Bool-cases w.once_done) [
    | inl fired ↦ rw (fired, decide_connectivity) h
    | inr fresh ↦ rw (fresh, decide_connectivity) h
  ]
  decide_connectivity-IsMode false w h = elim (Bool-cases w.once_done) [
    | inl fired ↦ rw (fired, decide_connectivity) h
    | inr fresh ↦ rw (fresh, decide_connectivity) h
  ]
