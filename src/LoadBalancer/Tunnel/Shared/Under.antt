-- ===== src/LoadBalancer/Tunnel/Shared/Under.antt =====
-- What each step does to the tunnels while a call of `setupTunnels` holds the mutex.
use mathlib.Core.Path.{subst}
use mathlib.Core.Option.{some-injective}
use cloud_provider_kind.Base.{
  String, ℕ, true, false, ◌≡◌, ◌≢◌, refl, sym, ap, ◌∙◌, none, some, Option, List, [], ◌∷◌, ◌++◌,
  ◌⊎◌, inl, inr, All, All-append, append_assoc,
}
use cloud_provider_kind.Base.Dict
use cloud_provider_kind.Base.Dict.{Dict}
use cloud_provider_kind.Base.Family.{put, put-cases}
use cloud_provider_kind.LoadBalancer.Tunnel.{
  Tunnel, Tunnels, new_tunnel, local_address, start, put_tunnel, port_at,
}
use cloud_provider_kind.LoadBalancer.Tunnel.Shared.{
  Pc, starting, unlocking, Shared, advance, Managing, Step, sets_up, removes, ends, moves,
  meanwhile, critical,
}
use cloud_provider_kind.LoadBalancer.Tunnel.Shared.Exclusive.{
  Effect, quiet, enters, works, leaves, advance-Effect, IsExclusive,
}
use cloud_provider_kind.World.{Result, ok, err, listen, Env, Result-cases}

-- The tunnels of a container put into the map, one after the other.
unfoldable pub put_all : String → Dict Tunnel → Tunnels → Tunnels
put_all name [] ts = ts
put_all name ((port, t) ∷ done) ts = put_all name done (put_tunnel name port t ts)

put_all-append :
    (name : String) (xs ys : Dict Tunnel) (ts : Tunnels)
    → put_all name (xs ++ ys) ts ≡ put_all name ys (put_all name xs ts)
unfolding put_all
put_all-append name [] ys ts = refl
put_all-append name ((port, t) ∷ xs) ys ts = put_all-append name xs ys (put_tunnel name port t ts)

keys-append : (xs ys : Dict Tunnel) → Dict.keys (xs ++ ys) ≡ Dict.keys xs ++ Dict.keys ys
unfolding Dict.keys
keys-append [] ys = refl
keys-append ((k, v) ∷ xs) ys = ap (λ l. k ∷ l) (keys-append xs ys)

-- The tunnel of a port, which listens on the address and forwards to the port of the host.
abbrev pub IsListening : String → Dict String → String × Tunnel → Type 0
IsListening ip portmaps (port, t) =
    (ln : ℕ) × (t
      ≡ record (new_tunnel ip port "localhost" (port_at port portmaps)) { listener = some ln })

module _ (name ip : String) (portmaps : Dict String) (ports : List String) (ts : Tunnels) where
  -- Where the goroutine stands with these ports left.
  abbrev pub Stands : List String → Pc → Type 0
  Stands left c =
      (c ≡ starting name ip portmaps left)
      ⊎ ((r : Result (Unit {0})) × (c ≡ unlocking r) × (r ≡ ok tt → left ≡ []))

  -- The map is that at the `Lock` and the tunnels that this call has started.
  pub record IsUnder (now : Tunnels) (c : Pc) : Type 0 where
    pub done : Dict Tunnel
    pub left : List String
    pub split : ports ≡ Dict.keys done ++ left
    pub listening : All (IsListening ip portmaps) done
    pub built : now ≡ put_all name done ts
    pub stands : Stands left c

  abbrev Goes : Option (Shared × Pc) → Type 0
  Goes none = Unit
  Goes (some (m, p)) = IsUnder m.tunnels p

  starts :
      (e : Env) (i : ℕ) (s : Shared) (done : Dict Tunnel) (left : List String)
      → ports ≡ Dict.keys done ++ left
      → All (IsListening ip portmaps) done
      → s.tunnels ≡ put_all name done ts
      → Goes (advance e i s (starting name ip portmaps left))
  unfolding advance start put_all Dict.keys
  starts e i s done [] split listening built = record {
    done = done;
    left = [];
    split = split;
    listening = listening;
    built = built;
    stands = inr (ok tt, refl, λ _. refl);
  }
  starts e i s done (p ∷ left) split listening built =
      let t = new_tunnel ip p "localhost" (port_at p portmaps) in
      elim (Result-cases (e.answer s.world.trace (listen (local_address t)))) [
        | inr (x, failed) ↦
            rw (failed, advance)
              (record {
                done = done;
                left = p ∷ left;
                split = split;
                listening = listening;
                built = built;
                stands = inr (err x, refl, λ h. absurd (cc));
              })
        | inl (ln, started) ↦
            rw (started, advance)
              (record {
                done = done ++ (p, record t { listener = some ln }) ∷ [];
                left = left;
                split =
                    split
                    ∙ sym (append_assoc (Dict.keys done) (p ∷ []) left)
                    ∙ ap (λ l. l ++ left) (sym (keys-append done _));
                listening = All-append _ done _ listening ((ln, refl), tt);
                built = ap (put_tunnel name p _) built ∙ sym (put_all-append name done _ ts);
                stands = inl refl;
              })
      ]

  abbrev Frees : Option (Shared × Pc) → Type 0
  Frees none = Unit
  Frees (some (m, p)) = m.owner ≡ none

  unlocks :
      (e : Env) (i : ℕ) (s : Shared) (r : Result (Unit {0})) → Frees (advance e i s (unlocking r))
  unfolding advance
  unlocks e i s r = refl

  -- A step of the goroutine itself.
  own_step :
      (e : Env) (i : ℕ) (s m : Shared) (c p : Pc)
      → IsUnder s.tunnels c
      → advance e i s c ≡ some (m, p)
      → m.owner ≡ some i
      → IsUnder m.tunnels p
  own_step e i s m c p v h held = elim v.stands [
    | inl at' ↦
        subst Goes (ap (advance e i s) (sym at') ∙ h)
          (starts e i s v.done v.left v.split v.listening v.built)
    | inr (r, at', _) ↦
        let free : m.owner ≡ none =
          subst Frees (ap (advance e i s) (sym at') ∙ h) (unlocks e i s r) in
        let wrong : some i ≡ none = sym held ∙ free in absurd (cc)
  ]

  -- A step of another goroutine, which does not hold the mutex.
  other_step :
      (i j : ℕ) (s : Managing) (m : Shared) (p : Pc)
      → IsExclusive s
      → s.shared.owner ≡ some i
      → j ≢ i
      → Effect j s.shared (s.pc j) m p
      → m.tunnels ≡ s.shared.tunnels
  other_step i j s m p x held other f = elim f [
    | quiet c out o t ↦ t
    | enters c into free own t ↦ t
    | works c into o ↦ absurd (other (some-injective j i (sym (x.holds j c) ∙ held)))
    | leaves c out o t ↦ t
  ]

  -- A goroutine that is at rest is another one.
  rest_step :
      (i j : ℕ) (s : Managing) (p : Pc)
      → IsExclusive s
      → s.shared.owner ≡ some i
      → critical (s.pc j) ≡ false
      → IsUnder s.shared.tunnels (s.pc i)
      → IsUnder s.shared.tunnels (put j p s.pc i)
  rest_step i j s p x held out v = elim (put-cases j i p s.pc) [
    | inl (same, is) ↦
        let wrong : true ≡ false =
          sym (x.working i held) ∙ ap (λ k. critical (s.pc k)) same ∙ out in
        absurd (cc)
    | inr (other, is) ↦ subst (IsUnder s.shared.tunnels) (sym is) v
  ]

  pub Step-IsUnder :
      {e : Env} {s u : Managing} (i : ℕ)
      → Step e s u
      → IsExclusive s
      → s.shared.owner ≡ some i
      → u.shared.owner ≡ some i
      → IsUnder s.shared.tunnels (s.pc i)
      → IsUnder u.shared.tunnels (u.pc i)
  Step-IsUnder {e} {s} i (sets_up j name rest) x held holds v =
      rest_step i j s _ x held (ap critical rest) v
  Step-IsUnder {e} {s} i (removes j name rest) x held holds v =
      rest_step i j s _ x held (ap critical rest) v
  Step-IsUnder {e} {s} i (ends j r rest) x held holds v =
      rest_step i j s _ x held (ap critical rest) v
  Step-IsUnder {e} {s} i (moves j m p h) x held holds v = elim (put-cases j i p s.pc) [
    | inl (same, is) ↦ subst (IsUnder m.tunnels) (sym is) (
        own_step e i s.shared m (s.pc i) p v (ap (λ k. advance e k s.shared (s.pc k)) same ∙ h)
          holds)
    | inr (other, is) ↦
        let kept =
          other_step i j s m p x held (λ q. other (sym q))
            (advance-Effect e j s.shared (s.pc j) m p h) in
        subst (λ ts. IsUnder ts (put j p s.pc i)) (sym kept)
          (subst (IsUnder s.shared.tunnels) (sym is) v)
  ]
  Step-IsUnder i (meanwhile w) x held holds v = v
