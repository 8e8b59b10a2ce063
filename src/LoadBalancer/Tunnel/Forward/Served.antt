-- ===== src/LoadBalancer/Tunnel/Forward/Served.antt =====
-- What the goroutines of a tunnel have called, in every order of their steps.
use mathlib.Core.Path.{subst}
use cloud_provider_kind.Base.{
  ℕ, nat_eq, true, ◌≡◌, refl, sym, ap, arith, List, [], ◌∷◌, ◌++◌, In, inl, inr,
}
use cloud_provider_kind.Base.Family.{put-cases}
use cloud_provider_kind.LoadBalancer.Tunnel.{Tunnel}
use cloud_provider_kind.LoadBalancer.Tunnel.Forward.{
  Stage, unborn, accepted, failed, copying, returned, remote_address, Handle, dials, refused,
  to_client, to_server, returns, Serving, Step, accepts, stops, handles, Reach, start, later,
}
use cloud_provider_kind.World.{Action, accept, dial, copy, close, Env}

-- What has been called for a connection at a stage.
Progress : Tunnel → Stage → List Action → Type 0
Progress t unborn calls = Unit
Progress t (accepted local) calls = Unit
Progress t failed calls = In (dial (remote_address t)) calls
Progress t (copying local remote received sent) calls =
    In (dial (remote_address t)) calls
    × (received ≡ true → In (copy local remote) calls)
    × (sent ≡ true → In (copy remote local) calls)
Progress t (returned local remote) calls =
    (after before : List Action) × (calls ≡ after ++ close remote ∷ before)
    × In (dial (remote_address t)) before
    × In (copy local remote) before
    × In (copy remote local) before

Progress-later :
    (t : Tunnel) (st : Stage) (a : Action) (calls : List Action)
    → Progress t st calls
    → Progress t st (a ∷ calls)
unfolding Progress
Progress-later t unborn a calls p = tt
Progress-later t (accepted local) a calls p = tt
Progress-later t failed a calls p = inr p
Progress-later t (copying local remote received sent) a calls (d, c, s) =
    (inr d, λ h. inr (c h), λ h. inr (s h))
Progress-later t (returned local remote) a calls (after, before, is, d, c, b) =
    (a ∷ after, before, ap (λ l. a ∷ l) is, d, c, b)

Handle-Progress :
    {e : Env} (t : Tunnel) {st u : Stage} {a : Action} (calls : List Action)
    → Handle e t st a u
    → Progress t st calls
    → Progress t u (a ∷ calls)
unfolding Progress
Handle-Progress t calls (dials h local remote _) p =
    (inl refl, λ wrong. absurd (ground arith), λ wrong. absurd (ground arith))
Handle-Progress t calls (refused h local x _) p = inl refl
Handle-Progress t calls (to_client local remote sent) (d, c, s) =
    (inr d, λ _. inl refl, λ h. inr (s h))
Handle-Progress t calls (to_server local remote received) (d, c, s) =
    (inr d, λ h. inr (c h), λ _. inl refl)
Handle-Progress t calls (returns local remote) (d, c, s) = ([], calls, refl, d, c refl, s refl)

module _ (e : Env) (t : Tunnel) (ln : ℕ) where
  Step-Progress :
      (s u : Serving)
      → Step e t ln s u
      → ((i : ℕ) → Progress t (s.stage i) s.calls)
      → (i : ℕ) → Progress t (u.stage i) u.calls
  unfolding Progress
  Step-Progress s _ (accepts h local _ _) all j =
      elim (put-cases s.opened j (accepted local) s.stage) [
        | inl (_, is) ↦ subst (λ st. Progress t st (accept ln ∷ s.calls)) (sym is) tt
        | inr (_, is) ↦
            subst (λ st. Progress t st (accept ln ∷ s.calls)) (sym is)
              (Progress-later t (s.stage j) _ s.calls (all j))
      ]
  Step-Progress s _ (stops h x _ _) all j = Progress-later t (s.stage j) _ s.calls (all j)
  Step-Progress s _ (handles i a st step) all j = elim (put-cases i j st s.stage) [
    | inl (_, is) ↦
        subst (λ st'. Progress t st' (a ∷ s.calls)) (sym is)
          (Handle-Progress t s.calls step (all i))
    | inr (_, is) ↦
        subst (λ st'. Progress t st' (a ∷ s.calls)) (sym is)
          (Progress-later t (s.stage j) a s.calls (all j))
  ]

  Reach-Progress : (s : Serving) → Reach e t ln s → (i : ℕ) → Progress t (s.stage i) s.calls
  unfolding Progress
  Reach-Progress _ start i = tt
  Reach-Progress _ (later {s} {u} r step) i = Step-Progress s u step (Reach-Progress s r) i

-- When `handleConnection` has returned for a connection that it could dial, it has dialled the
-- tunnel's remote address and copied in both directions, and after that closed the connection to
-- the server.
pub returned_lem :
    (e : Env) (t : Tunnel) (ln : ℕ) (s : Serving) (i local remote : ℕ)
    → Reach e t ln s
    → s.stage i ≡ returned local remote
    → (after before : List Action) × (s.calls ≡ after ++ close remote ∷ before)
      × In (dial (remote_address t)) before
      × In (copy local remote) before
      × In (copy remote local) before
unfolding Progress
returned_lem e t ln s i local remote r is =
    subst (λ st. Progress t st s.calls) is (Reach-Progress e t ln s r i)

module _ (t : Tunnel) (calls : List Action) where
  -- What is closed, and when.
  Closing : Stage → ℕ → Stage → Type 0
  Closing st x u =
      (local remote : ℕ) × (st ≡ copying local remote true true)
      × (x ≡ remote)
      × (u ≡ returned local remote)
      × In (dial (remote_address t)) calls
      × In (copy local remote) calls
      × In (copy remote local) calls

  Handle-Closing :
      {e : Env} {st u : Stage} {a : Action} (x : ℕ)
      → Handle e t st a u
      → a ≡ close x
      → Progress t st calls
      → Closing st x u
  unfolding Progress Closing
  Handle-Closing x (dials h local remote _) is p = absurd (cc)
  Handle-Closing x (refused h local y _) is p = absurd (cc)
  Handle-Closing x (to_client local remote sent) is p = absurd (cc)
  Handle-Closing x (to_server local remote received) is p = absurd (cc)
  Handle-Closing x (returns local remote) is (d, c, s) =
      (local, remote, refl, cc, refl, d, c refl, s refl)

-- In every reachable state, `handleConnection` closes something for a connection only with its last
-- step, in which it returns: it has dialled the tunnel's remote address by then, both copies have
-- ended, and what it closes is the connection to the server.
pub closes_last :
    (e : Env) (t : Tunnel) (ln : ℕ) (s : Serving) (i x : ℕ) (st : Stage)
    → Reach e t ln s
    → Handle e t (s.stage i) (close x) st
    → (local remote : ℕ) × (s.stage i ≡ copying local remote true true)
      × (x ≡ remote)
      × (st ≡ returned local remote)
      × In (dial (remote_address t)) s.calls
      × In (copy local remote) s.calls
      × In (copy remote local) s.calls
unfolding Closing
closes_last e t ln s i x st r step =
    Handle-Closing t s.calls x step refl (Reach-Progress e t ln s r i)
