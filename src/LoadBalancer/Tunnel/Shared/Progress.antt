-- ===== src/LoadBalancer/Tunnel/Shared/Progress.antt =====
-- No goroutine waits for the mutex in vain.
use cloud_provider_kind.Base.{
  ℕ, Bool, true, false, ◌≡◌, ◌≢◌, refl, sym, ap, ◌∙◌, none, some, ◌⊎◌, inl, inr, Option-cases,
}
use cloud_provider_kind.Base.Dict
use cloud_provider_kind.Base.Dict.{Dict}
use cloud_provider_kind.LoadBalancer.Tunnel.Shared.{
  Pc, idle, mapping, addressing, adding, locking, starting, removing, stopping, releasing,
  unlocking, returned, Shared, advance, Managing, Reach, critical,
}
use cloud_provider_kind.LoadBalancer.Tunnel.Shared.Alone.{
  alone, holding, beyond, starts_alone, stops_alone,
}
use cloud_provider_kind.LoadBalancer.Tunnel.Shared.Exclusive.{Reach-IsExclusive}
use cloud_provider_kind.World.{ok, Env, World}

-- In front of `Lock`.
abbrev pub waiting : Pc → Bool
waiting (locking name portmaps ipv4) = true
waiting (removing name) = true
waiting _ = false

module _ (e : Env) (i : ℕ) where
  as_holding : (s : Shared) → s.owner ≡ some i → s ≡ holding i s.tunnels s.world
  as_holding s held = ap (λ o. record s { owner = o }) held

  -- The goroutine unlocks the mutex after some steps of its own.
  abbrev pub Releases : Shared → Pc → Type 0
  Releases s c = (n : ℕ) × ((alone n e i s c).0.owner ≡ none)

  releases : (s : Shared) (c : Pc) → s.owner ≡ some i → critical c ≡ true → Releases s c
  unfolding alone advance
  releases s (starting name ip portmaps ports) held h = (
    beyond 2 ports,
    ap (λ x. (alone (beyond 2 ports) e i x (starting name ip portmaps ports)).0.owner)
          (as_holding s held)
        ∙ ap (λ (x : Shared × Pc). x.0.owner)
            (starts_alone e i name ip portmaps ports s.tunnels s.world),
  )
  releases s (stopping tuns ports ip) held h = (
    beyond 3 ports,
    ap (λ x. (alone (beyond 3 ports) e i x (stopping tuns ports ip)).0.owner) (as_holding s held)
        ∙ ap (λ (x : Shared × Pc). x.0.owner) (stops_alone e i tuns ports ip s.tunnels s.world),
  )
  releases s (releasing ip) held h = (2, refl)
  releases s (unlocking r) held h = (1, refl)
  releases s idle held h = absurd (cc)
  releases s (mapping name) held h = absurd (cc)
  releases s (addressing name portmaps) held h = absurd (cc)
  releases s (adding name portmaps ipv4) held h = absurd (cc)
  releases s (locking name portmaps ipv4) held h = absurd (cc)
  releases s (removing name) held h = absurd (cc)
  releases s (returned r) held h = absurd (cc)

  abbrev taken : Shared → Shared
  taken s = record s { owner = some i }

  -- The next step of the goroutine locks the mutex.
  abbrev pub Locks : Shared → Pc → Type 0
  Locks s c = (m : Shared) × ((p : Pc) × (advance e i s c ≡ some (m, p)) × (m.owner ≡ some i))

  locks : (s : Shared) (c : Pc) → s.owner ≡ none → waiting c ≡ true → Locks s c
  unfolding advance
  locks s (locking name portmaps ipv4) free h =
      let ports = e.order s.world.trace (Dict.keys portmaps) in
      (taken s, (starting name ipv4 portmaps ports, rw (free, advance) refl, refl))
  locks s (removing name) free h = elim (Option-cases (Dict.lookup name s.tunnels)) [
    | inl absent ↦ (taken s, (unlocking (ok tt), rw (free, absent, advance) refl, refl))
    | inr (tuns, there) ↦
        let ports = e.order s.world.trace (Dict.keys tuns) in
        (taken s, (stopping tuns ports "", rw (free, there, advance) refl, refl))
  ]
  locks s idle free h = absurd (cc)
  locks s (mapping name) free h = absurd (cc)
  locks s (addressing name portmaps) free h = absurd (cc)
  locks s (adding name portmaps ipv4) free h = absurd (cc)
  locks s (starting name ip portmaps ports) free h = absurd (cc)
  locks s (stopping tuns ports ip) free h = absurd (cc)
  locks s (releasing ip) free h = absurd (cc)
  locks s (unlocking r) free h = absurd (cc)
  locks s (returned r) free h = absurd (cc)

outside : (c : Pc) → waiting c ≡ true → critical c ≡ false
outside idle h = refl
outside (mapping name) h = refl
outside (addressing name portmaps) h = refl
outside (adding name portmaps ipv4) h = refl
outside (locking name portmaps ipv4) h = refl
outside (removing name) h = refl
outside (starting name ip portmaps ports) h = absurd (cc)
outside (stopping tuns ports ip) h = absurd (cc)
outside (releasing ip) h = absurd (cc)
outside (unlocking r) h = absurd (cc)
outside (returned r) h = refl

-- In every reachable state a goroutine that waits for the mutex gets it with its next step, or
-- another goroutine holds it, which is not held up by any other and unlocks it after some steps of
-- its own.
pub mutex_is_available :
    (e : Env) (w : World) (s : Managing) (j : ℕ)
    → Reach e w s
    → waiting (s.pc j) ≡ true
    → ((s.shared.owner ≡ none) × Locks e j s.shared (s.pc j))
      ⊎ ((i : ℕ) × (i ≢ j) × (s.shared.owner ≡ some i) × Releases e i s.shared (s.pc i))
mutex_is_available e w s j reach waits =
    let x = Reach-IsExclusive reach in
    elim (Option-cases s.shared.owner) [
      | inl free ↦ inl (free, locks e j s.shared (s.pc j) free waits)
      | inr (i, held) ↦ inr (
        i,
        apart i (x.working i held),
        held,
        releases e i s.shared (s.pc i) held (x.working i held),
      )
    ]
  where
    apart : (i : ℕ) → critical (s.pc i) ≡ true → i ≢ j
    apart i c p =
        let wrong : true ≡ false = sym c ∙ ap (λ k. critical (s.pc k)) p ∙ outside (s.pc j) waits in
        absurd (cc)
