-- ===== src/LoadBalancer/Tunnel/Shared/Exclusive.antt =====
-- At most one goroutine is between `Lock` and `Unlock`.
use mathlib.Core.Path.{subst}
use mathlib.Core.Option.{some-injective}
use cloud_provider_kind.Base.{
  String, ℕ, true, false, ◌≡◌, refl, sym, ap, ◌∙◌, Option, none, some, [], ◌∷◌, inl, inr,
  Option-cases,
}
use cloud_provider_kind.Base.Dict
use cloud_provider_kind.Base.Dict.{Dict}
use cloud_provider_kind.Base.Family.{put, put-cases}
use cloud_provider_kind.LoadBalancer.Tunnel.{new_tunnel, local_address, start, port_at}
use cloud_provider_kind.LoadBalancer.Tunnel.Shared.{
  Pc, idle, mapping, addressing, adding, locking, starting, removing, stopping, releasing,
  unlocking, returned, Shared, after_mapping, after_addressing, after_adding, advance, Managing,
  Step, sets_up, removes, ends, moves, meanwhile, Reach, here, later, critical,
}
use cloud_provider_kind.World.{Result, ok, err, listen, Env, World, Result-cases}

-- What a step of the goroutine `i` does to the mutex and the tunnels.
pub data Effect (i : ℕ) (s : Shared) (c : Pc) (m : Shared) (p : Pc) : Type 0 where
  quiet :
      critical c ≡ false
      → critical p ≡ false
      → m.owner ≡ s.owner
      → m.tunnels ≡ s.tunnels
      → Effect i s c m p
  enters :
      critical c ≡ false
      → critical p ≡ true
      → s.owner ≡ none
      → m.owner ≡ some i
      → m.tunnels ≡ s.tunnels
      → Effect i s c m p
  works : critical c ≡ true → critical p ≡ true → m.owner ≡ s.owner → Effect i s c m p
  leaves :
      critical c ≡ true
      → critical p ≡ false
      → m.owner ≡ none
      → m.tunnels ≡ s.tunnels
      → Effect i s c m p

abbrev Holds : ℕ → Shared → Pc → Option (Shared × Pc) → Type 0
Holds i s c none = Unit
Holds i s c (some (m, p)) = Effect i s c m p

after_mapping-quiet :
    (name : String) (r : Result (Dict String)) → critical (after_mapping name r) ≡ false
after_mapping-quiet name (ok portmaps) = refl
after_mapping-quiet name (err x) = refl

after_addressing-quiet :
    (name : String) (portmaps : Dict String) (r : Result (String × String))
    → critical (after_addressing name portmaps r) ≡ false
after_addressing-quiet name portmaps (ok both) = refl
after_addressing-quiet name portmaps (err x) = refl

after_adding-quiet :
    (name : String) (portmaps : Dict String) (ipv4 : String) (r : Result (Unit {0}))
    → critical (after_adding name portmaps ipv4 r) ≡ false
after_adding-quiet name portmaps ipv4 (ok _) = refl
after_adding-quiet name portmaps ipv4 (err x) = refl

module _ (e : Env) (i : ℕ) (s : Shared) where
  advance-Holds : (c : Pc) → Holds i s c (advance e i s c)
  unfolding advance start
  advance-Holds idle = tt
  advance-Holds (mapping name) = quiet refl (after_mapping-quiet name _) refl refl
  advance-Holds (addressing name portmaps) =
      quiet refl (after_addressing-quiet name portmaps _) refl refl
  advance-Holds (adding name portmaps ipv4) =
      quiet refl (after_adding-quiet name portmaps ipv4 _) refl refl
  advance-Holds (locking name portmaps ipv4) = elim (Option-cases s.owner) [
    | inl free ↦ rw (free, advance) (enters refl refl refl refl refl)
    | inr (j, held) ↦ rw (held, advance) tt
  ]
  advance-Holds (starting name ipv4 portmaps []) = works refl refl refl
  advance-Holds (starting name ipv4 portmaps (port ∷ ports)) =
      let t = new_tunnel ipv4 port "localhost" (port_at port portmaps) in
      elim (Result-cases (e.answer s.world.trace (listen (local_address t)))) [
        | inl (ln, started) ↦ rw (started, advance) (works refl refl refl)
        | inr (x, failed) ↦ rw (failed, advance) (works refl refl refl)
      ]
  advance-Holds (removing name) = elim (Option-cases s.owner) [
    | inr (j, held) ↦ rw (held, advance) tt
    | inl free ↦ elim (Option-cases (Dict.lookup name s.tunnels)) [
      | inl absent ↦ rw (free, absent, advance) (enters refl refl refl refl refl)
      | inr (tuns, there) ↦ rw (free, there, advance) (enters refl refl refl refl refl)
    ]
  ]
  advance-Holds (stopping tuns [] ip) = works refl refl refl
  advance-Holds (stopping tuns (port ∷ ports) ip) = elim (Option-cases (Dict.lookup port tuns)) [
    | inl absent ↦ rw (absent, advance) (works refl refl refl)
    | inr (t, there) ↦ rw (there, advance) (works refl refl refl)
  ]
  advance-Holds (releasing ip) = works refl refl refl
  advance-Holds (unlocking r) = leaves refl refl refl refl
  advance-Holds (returned r) = tt

  pub advance-Effect :
      (c : Pc) (m : Shared) (p : Pc) → advance e i s c ≡ some (m, p) → Effect i s c m p
  advance-Effect c m p h = subst (Holds i s c) h (advance-Holds c)

-- The mutex is held by the goroutine that is between `Lock` and `Unlock`, if there is one.
pub record IsExclusive (s : Managing) : Type 0 where
  pub holds : (j : ℕ) → critical (s.pc j) ≡ true → s.shared.owner ≡ some j
  pub working : (j : ℕ) → s.shared.owner ≡ some j → critical (s.pc j) ≡ true

module _ (s : Managing) (i : ℕ) (m : Shared) (p : Pc) (x : IsExclusive s) where
  abbrev next : Managing
  next = record { shared = m; pc = put i p s.pc }

  moves-holds :
      Effect i s.shared (s.pc i) m p → (j : ℕ) → critical (next.pc j) ≡ true → m.owner ≡ some j
  moves-holds f j h = elim (put-cases i j p s.pc) [
    | inl (same, is) ↦
        let in_p : critical p ≡ true = sym (ap critical is) ∙ h in
        elim f [
          | quiet c out o t ↦ let wrong : false ≡ true = sym out ∙ in_p in absurd (cc)
          | enters c into free own t ↦ own ∙ ap some (sym same)
          | works c into o ↦ o ∙ x.holds i c ∙ ap some (sym same)
          | leaves c out o t ↦ let wrong : false ≡ true = sym out ∙ in_p in absurd (cc)
        ]
    | inr (other, is) ↦
        let held : s.shared.owner ≡ some j = x.holds j (sym (ap critical is) ∙ h) in
        elim f [
          | quiet c out o t ↦ o ∙ held
          | enters c into free own t ↦ let wrong : none ≡ some j = sym free ∙ held in absurd (cc)
          | works c into o ↦ o ∙ held
          | leaves c out o t ↦ absurd (other (some-injective j i (sym held ∙ x.holds i c)))
        ]
  ]

  moves-working :
      Effect i s.shared (s.pc i) m p → (j : ℕ) → m.owner ≡ some j → critical (next.pc j) ≡ true
  moves-working f j h = elim (put-cases i j p s.pc) [
    | inl (same, is) ↦ elim f [
      | quiet c out o t ↦
          let wrong : false ≡ true = sym c ∙ x.working i (sym o ∙ h ∙ ap some same) in absurd (cc)
      | enters c into free own t ↦ ap critical is ∙ into
      | works c into o ↦ ap critical is ∙ into
      | leaves c out o t ↦ let wrong : none ≡ some j = sym o ∙ h in absurd (cc)
    ]
    | inr (other, is) ↦ elim f [
      | quiet c out o t ↦ ap critical is ∙ x.working j (sym o ∙ h)
      | enters c into free own t ↦ absurd (other (some-injective j i (sym h ∙ own)))
      | works c into o ↦ ap critical is ∙ x.working j (sym o ∙ h)
      | leaves c out o t ↦ let wrong : none ≡ some j = sym o ∙ h in absurd (cc)
    ]
  ]

  moves-IsExclusive : Effect i s.shared (s.pc i) m p → IsExclusive next
  moves-IsExclusive f = record { holds = moves-holds f; working = moves-working f }

-- A goroutine that goes from one place outside to another keeps this.
outside-IsExclusive :
    (s : Managing) (i : ℕ) (p : Pc)
    → critical (s.pc i) ≡ false
    → critical p ≡ false
    → IsExclusive s
    → IsExclusive (record s { pc = put i p s.pc })
outside-IsExclusive s i p out still x =
    moves-IsExclusive s i s.shared p x (quiet out still refl refl)

pub Step-IsExclusive : {e : Env} {s u : Managing} → Step e s u → IsExclusive s → IsExclusive u
Step-IsExclusive {e} {s} (sets_up i name rest) x =
    outside-IsExclusive s i _ (ap critical rest) refl x
Step-IsExclusive {e} {s} (removes i name rest) x =
    outside-IsExclusive s i _ (ap critical rest) refl x
Step-IsExclusive {e} {s} (ends i r rest) x = outside-IsExclusive s i _ (ap critical rest) refl x
Step-IsExclusive {e} {s} (moves i m p h) x =
    moves-IsExclusive s i m p x (advance-Effect e i s.shared (s.pc i) m p h)
Step-IsExclusive (meanwhile w) x = record { holds = x.holds; working = x.working }

pub Reach-IsExclusive : {e : Env} {w : World} {s : Managing} → Reach e w s → IsExclusive s
Reach-IsExclusive here = record { holds = λ j c. absurd (cc); working = λ j o. absurd (cc) }
Reach-IsExclusive (later r st) = Step-IsExclusive st (Reach-IsExclusive r)
