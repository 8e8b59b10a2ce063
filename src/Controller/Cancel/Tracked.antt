-- ===== src/Controller/Cancel/Tracked.antt =====
-- A labelled container, through the calls of `cancelFn`.
use cloud_provider_kind.Base.{
  String, string_eq, ◌≡◌, sym, ap, ◌∷◌, ◌++◌, Bool, Bool-cases, In, inl, inr, ◌⊎◌,
}
use cloud_provider_kind.Api.{Service}
use cloud_provider_kind.Controller.Cancel.Calls.{IsCancelling}
use cloud_provider_kind.Controller.Connect.{decide_connectivity}
use cloud_provider_kind.Controller.Starting.{IsStarting}
use cloud_provider_kind.LoadBalancer.Names.{load_balancer_name, load_balancer_simple_name}
use cloud_provider_kind.LoadBalancer.Server.Running.{rm_call}
use cloud_provider_kind.World.{Action, Trace, Env, World}
use cloud_provider_kind.Controller.Cancel.Created.{Labels, IsLabelled}

module _ (e : Env) (r : Labels e) (cluster : String) (service : Service) (id : String)
    (h0 : Trace) where
  abbrev pub name : String
  name = load_balancer_name cluster service

  abbrev pub removal : Action
  removal = rm_call e.runtime name

  abbrev pub simple : String
  simple = load_balancer_simple_name cluster service

  -- Since `h0` the container has been removed, or it has its label still.
  abbrev pub Removed : World → Type 0
  Removed w = (calls : Trace) × (w.trace ≡ calls ++ h0) × In removal calls

  abbrev pub Tracked : World → Type 0
  Tracked w =
      Removed w
      ⊎ ((calls : Trace) × (w.trace ≡ calls ++ h0) × IsLabelled e r cluster service id w.trace)

  pub Removed-later :
      (a : Action) (w : World)
      → IsCancelling e a
      → Removed w
      → Removed (record w { trace = a ∷ w.trace })
  Removed-later a w _ (calls, is, i) = (a ∷ calls, ap (λ h. a ∷ h) is, inr i)

  pub Tracked-later :
      (a : Action) (w : World)
      → IsCancelling e a
      → Tracked w
      → Tracked (record w { trace = a ∷ w.trace })
  Tracked-later a w c (inl gone) = inl (Removed-later a w c gone)
  Tracked-later a w c (inr (calls, is, l)) =
      let is' : a ∷ w.trace ≡ (a ∷ calls) ++ h0 = ap (λ h. a ∷ h) is in
      elim (r.stays w.trace a name id cluster simple c l) [
        | inl still ↦ inr (a ∷ calls, is', still)
        | inr removes' ↦ inl (a ∷ calls, is', inl (sym removes'))
      ]

  pub Tracked-starting :
      (a : Action) (w : World)
      → IsStarting a
      → Tracked w
      → Tracked (record w { trace = a ∷ w.trace })
  Tracked-starting a w s (inl (calls, is, i)) = inl (a ∷ calls, ap (λ h. a ∷ h) is, inr i)
  Tracked-starting a w s (inr (calls, is, l)) =
      inr (a ∷ calls, ap (λ h. a ∷ h) is, r.starts w.trace a name id cluster simple s l)

  -- Deciding the connectivity calls nothing.
  pub Tracked-decided :
      (internal : Bool) (w : World) → Tracked w → Tracked (decide_connectivity internal e w).1
  unfolding decide_connectivity
  Tracked-decided internal w t = elim (Bool-cases w.once_done) [
    | inl fired ↦ rw (fired, decide_connectivity) t
    | inr fresh ↦ rw (fresh, decide_connectivity) t
  ]
