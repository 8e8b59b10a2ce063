-- ===== src/LoadBalancer/Tunnel/Forward/Owned.antt =====
-- Which calls the goroutines of a tunnel make at all.
use mathlib.Core.Path.{subst}
use cloud_provider_kind.Base.{
  ℕ, ◌≤◌, ◌≡◌, refl, sym, ap, ◌∙◌, arith, Option, some, none, List, ◌∷◌, In, inl, inr,
}
use cloud_provider_kind.Base.Family.{put, put-cases, put_self}
use cloud_provider_kind.LoadBalancer.Tunnel.{Tunnel}
use cloud_provider_kind.LoadBalancer.Tunnel.Forward.{
  Stage, unborn, accepted, copying, returned, remote_address, Handle, dials, refused, to_client,
  to_server, returns, Serving, Step, accepts, stops, handles, Reach, start, later,
}
use cloud_provider_kind.World.{Action, accept, dial, copy, close, Env}

-- The two ends of a connection that has been dialled.
abbrev pub ends : Stage → Option (ℕ × ℕ)
ends (copying local remote received sent) = some (local, remote)
ends (returned local remote) = some (local, remote)
ends _ = none

-- The calls that belong to some connection, or to the listener.
pub data IsOwn (t : Tunnel) (ln : ℕ) (stage : ℕ → Stage) : Action → Type 0 where
  accepting : IsOwn t ln stage (accept ln)
  dialling : IsOwn t ln stage (dial (remote_address t))
  receiving :
      (i local remote : ℕ)
      → ends (stage i) ≡ some (local, remote)
      → IsOwn t ln stage (copy local remote)
  sending :
      (i local remote : ℕ)
      → ends (stage i) ≡ some (local, remote)
      → IsOwn t ln stage (copy remote local)
  closing : (i local remote : ℕ) → stage i ≡ returned local remote → IsOwn t ln stage (close remote)

-- What a step keeps of the connections.
record Kept (before after : ℕ → Stage) : Type 0 where
  pub keeps_ends :
      (i local remote : ℕ)
      → ends (before i) ≡ some (local, remote)
      → ends (after i) ≡ some (local, remote)
  pub keeps_returned :
      (i local remote : ℕ) → before i ≡ returned local remote → after i ≡ returned local remote

module _ (t : Tunnel) (ln : ℕ) where
  Kept-IsOwn :
      (before after : ℕ → Stage) (a : Action)
      → Kept before after
      → IsOwn t ln before a
      → IsOwn t ln after a
  Kept-IsOwn before after _ k accepting = accepting
  Kept-IsOwn before after _ k dialling = dialling
  Kept-IsOwn before after _ k (receiving i l r h) = receiving i l r (k.keeps_ends i l r h)
  Kept-IsOwn before after _ k (sending i l r h) = sending i l r (k.keeps_ends i l r h)
  Kept-IsOwn before after _ k (closing i l r h) = closing i l r (k.keeps_returned i l r h)

  module _ (e : Env) where
    Handle-ends :
        {st u : Stage} {a : Action} (local remote : ℕ)
        → Handle e t st a u
        → ends st ≡ some (local, remote)
        → ends u ≡ some (local, remote)
    Handle-ends local remote (dials h l r _) is = absurd (cc)
    Handle-ends local remote (refused h l x _) is = absurd (cc)
    Handle-ends local remote (to_client l r sent) is = is
    Handle-ends local remote (to_server l r received) is = is
    Handle-ends local remote (returns l r) is = is

    -- Nothing is done for a connection after it has returned, or before it has been accepted.
    returned_ends :
        {st u : Stage} {a : Action} (local remote : ℕ)
        → Handle e t st a u
        → st ≡ returned local remote
        → (A : Type 0) → A
    returned_ends local remote (dials h l r _) is A = absurd (cc)
    returned_ends local remote (refused h l x _) is A = absurd (cc)
    returned_ends local remote (to_client l r sent) is A = absurd (cc)
    returned_ends local remote (to_server l r received) is A = absurd (cc)
    returned_ends local remote (returns l r) is A = absurd (cc)

    unborn_waits : {st u : Stage} {a : Action} → Handle e t st a u → st ≡ unborn → (A : Type 0) → A
    unborn_waits (dials h l r _) is A = absurd (cc)
    unborn_waits (refused h l x _) is A = absurd (cc)
    unborn_waits (to_client l r sent) is A = absurd (cc)
    unborn_waits (to_server l r received) is A = absurd (cc)
    unborn_waits (returns l r) is A = absurd (cc)

    Handle-Kept :
        (i : ℕ) (a : Action) (st : Stage) (stage : ℕ → Stage)
        → Handle e t (stage i) a st
        → Kept stage (put i st stage)
    Handle-Kept i a st stage step = record {
      keeps_ends = λ j l r h. elim (put-cases i j st stage) [
        | inl (same, is) ↦
            ap ends is ∙ Handle-ends l r step (ap (λ k. ends (stage k)) (sym same) ∙ h)
        | inr (_, is) ↦ ap ends is ∙ h
      ];
      keeps_returned = λ j l r h. elim (put-cases i j st stage) [
        | inl (same, is) ↦ returned_ends l r step (ap stage (sym same) ∙ h) _
        | inr (_, is) ↦ is ∙ h
      ];
    }

    -- The call of a step belongs to the connection that it is made for.
    Handle-IsOwn :
        {st u : Stage} {a : Action} (i : ℕ) (stage : ℕ → Stage)
        → Handle e t st a u
        → stage i ≡ u
        → IsOwn t ln stage a
    Handle-IsOwn i stage (dials h l r _) is = dialling
    Handle-IsOwn i stage (refused h l x _) is = dialling
    Handle-IsOwn i stage (to_client l r sent) is = receiving i l r (ap ends is)
    Handle-IsOwn i stage (to_server l r received) is = sending i l r (ap ends is)
    Handle-IsOwn i stage (returns l r) is = closing i l r is

  record Inv (s : Serving) : Type 0 where
    pub fresh : (j : ℕ) → s.opened ≤ j → s.stage j ≡ unborn
    pub own : (a : Action) → In a s.calls → IsOwn t ln s.stage a

  IsOwn-later :
      (before after : ℕ → Stage) (a : Action) (calls : List Action)
      → Kept before after
      → IsOwn t ln after a
      → ((b : Action) → In b calls → IsOwn t ln before b)
      → (b : Action) → In b (a ∷ calls)
      → IsOwn t ln after b
  IsOwn-later before after a calls k this old b (inl is) =
      subst (λ c. IsOwn t ln after c) (sym is) this
  IsOwn-later before after a calls k this old b (inr i) = Kept-IsOwn before after b k (old b i)

  accepts-Kept :
      (s : Serving) (local : ℕ)
      → s.stage s.opened ≡ unborn
      → Kept s.stage (put s.opened (accepted local) s.stage)
  accepts-Kept s local fresh = record {
    keeps_ends = λ j l r h. elim (put-cases s.opened j (accepted local) s.stage) [
      | inl (same, is) ↦
          let wrong : none ≡ some (l, r) = sym (ap ends (ap s.stage same ∙ fresh)) ∙ h in
          absurd (cc)
      | inr (_, is) ↦ ap ends is ∙ h
    ];
    keeps_returned = λ j l r h. elim (put-cases s.opened j (accepted local) s.stage) [
      | inl (same, is) ↦
          let wrong : unborn ≡ returned l r = sym (ap s.stage same ∙ fresh) ∙ h in absurd (cc)
      | inr (_, is) ↦ is ∙ h
    ];
  }

  Step-Inv : (e : Env) (s u : Serving) → Step e t ln s u → Inv s → Inv u
  Step-Inv e s _ (accepts h local _ _) v = record {
    fresh = λ j le. elim (put-cases s.opened j (accepted local) s.stage) [
      | inl (same, is) ↦ absurd (omega (arith, le, same))
      | inr (_, is) ↦ is ∙ v.fresh j (omega (arith, le))
    ];
    own =
        IsOwn-later s.stage _ (accept ln) s.calls
          (accepts-Kept s local (v.fresh s.opened (omega arith))) accepting v.own;
  }
  Step-Inv e s _ (stops h x _ _) v = record {
    fresh = v.fresh;
    own =
        IsOwn-later s.stage s.stage (accept ln) s.calls
          (record { keeps_ends = λ i l r h. h; keeps_returned = λ i l r h. h }) accepting v.own;
  }
  Step-Inv e s _ (handles i a st step) v = record {
    fresh = λ j le. elim (put-cases i j st s.stage) [
      | inl (same, is) ↦ unborn_waits e step (v.fresh i (omega (arith, le, same))) _
      | inr (_, is) ↦ is ∙ v.fresh j le
    ];
    own =
        IsOwn-later s.stage _ a s.calls (Handle-Kept e i a st s.stage step)
          (Handle-IsOwn e i (put i st s.stage) step (put_self i st s.stage)) v.own;
  }

  Reach-Inv : (e : Env) (s : Serving) → Reach e t ln s → Inv s
  Reach-Inv e _ start = record { fresh = λ j le. refl; own = λ a i. elim i [ ] }
  Reach-Inv e _ (later {s} {u} r step) = Step-Inv e s u step (Reach-Inv e s r)

-- In every order of their steps, the goroutines of a tunnel accept from its own listener, dial only
-- its remote address, copy only between the two ends of one connection, and close nothing but the
-- connection to the server, of a connection that has been handled.
pub Reach-IsOwn :
    (e : Env) (t : Tunnel) (ln : ℕ) (s : Serving) (a : Action)
    → Reach e t ln s
    → In a s.calls
    → IsOwn t ln s.stage a
Reach-IsOwn e t ln s a r i = (Reach-Inv t ln e s r).own a i
