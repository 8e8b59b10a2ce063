-- ===== src/LoadBalancer/Tunnel/Shared/Alone.antt =====
-- A goroutine on its own: its small steps are those of the sequential functions.
use cloud_provider_kind.Base.{
  String, ℕ, zero, suc, ◌≡◌, refl, sym, ap, ◌∙◌, none, some, List, [], ◌∷◌, inl, inr, Option-cases,
}
use cloud_provider_kind.Base.Dict
use cloud_provider_kind.Base.Dict.{Dict}
use cloud_provider_kind.Container.{port_maps, ips}
use cloud_provider_kind.LoadBalancer.Tunnel.{
  Tunnel, Tunnels, new_tunnel, local_address, start, port_at, start_all, prepare, setup_tunnels,
  stop_all, remove_tunnels, add_ip_to_local_interface, remove_ip_from_local_interface,
}
use cloud_provider_kind.LoadBalancer.Tunnel.Shared.{
  Pc, mapping, addressing, adding, locking, starting, removing, stopping, unlocking, returned,
  Shared, advance,
}
use cloud_provider_kind.World.{Result, ok, err, listen, Env, World, Result-cases}

-- At most `n` steps of one goroutine, with none of another in between.
unfoldable pub alone : ℕ → Env → ℕ → Shared → Pc → Shared × Pc
unfolding advance
alone zero e i s c = (s, c)
alone (suc n) e i s c = elim (advance e i s c) [ none ↦ (s, c) | some (m, p) ↦ alone n e i m p ]

-- A step for each port, and `n` more.
unfoldable pub beyond : ℕ → List String → ℕ
beyond n [] = n
beyond n (port ∷ ports) = suc (beyond n ports)

-- The mutex is free, and the goroutine has returned.
abbrev pub finished : Tunnels → World → Result (Unit {0}) → Shared × Pc
finished ts w r = (record { owner = none; tunnels = ts; world = w }, returned r)

abbrev pub outcome : (Result (Unit {0}) × Tunnels) × World → Shared × Pc
outcome ((r, ts), w) = finished ts w r

abbrev pub free : Tunnels → World → Shared
free ts w = record { owner = none; tunnels = ts; world = w }

abbrev pub holding : ℕ → Tunnels → World → Shared
holding i ts w = record { owner = some i; tunnels = ts; world = w }

module _ (e : Env) (i : ℕ) where
  alone_returned :
      (n : ℕ) (s : Shared) (r : Result (Unit {0})) → alone n e i s (returned r) ≡ (s, returned r)
  unfolding alone advance
  alone_returned zero s r = refl
  alone_returned (suc n) s r = refl

  alone_unlocks :
      (ports : List String) (s : Shared) (r : Result (Unit {0}))
      → alone (beyond 2 ports) e i s (unlocking r) ≡ (record s { owner = none }, returned r)
  unfolding alone advance beyond
  alone_unlocks [] s r = refl
  alone_unlocks (p ∷ ports) s r = alone_returned (beyond 2 ports) _ r

  alone-step :
      (n : ℕ) (s m : Shared) (c p : Pc)
      → advance e i s c ≡ some (m, p)
      → alone (suc n) e i s c ≡ alone n e i m p
  unfolding alone
  alone-step n s m c p h = rw (h, alone) refl

  pub starts_alone :
      (name ip : String) (portmaps : Dict String) (ports : List String) (ts : Tunnels) (w : World)
      → let after = start_all name ip portmaps ports ts e w in
        alone (beyond 2 ports) e i (holding i ts w) (starting name ip portmaps ports)
        ≡ finished after.0.1 after.1 after.0.0
  unfolding alone advance start_all start beyond
  starts_alone name ip portmaps [] ts w = refl
  starts_alone name ip portmaps (p ∷ ports) ts w =
      let t = new_tunnel ip p "localhost" (port_at p portmaps) in
      elim (Result-cases (e.answer w.trace (listen (local_address t)))) [
        | inr (x, failed) ↦ rw (failed, alone, start_all) (alone_unlocks ports _ (err x))
        | inl (ln, started) ↦
            rw (started, alone, start_all) (starts_alone name ip portmaps ports _ _)
      ]

  pub stops_alone :
      (tuns : Dict Tunnel) (ports : List String) (ip : String) (ts : Tunnels) (w : World)
      → let (last, w') = stop_all tuns ports ip e w in
        let (r, w'') = remove_ip_from_local_interface last e w' in
        alone (beyond 3 ports) e i (holding i ts w) (stopping tuns ports ip) ≡ finished ts w'' r
  unfolding alone advance stop_all beyond
  stops_alone tuns [] ip ts w = refl
  stops_alone tuns (p ∷ ports) ip ts w = elim (Option-cases (Dict.lookup p tuns)) [
    | inl absent ↦ rw (absent, stop_all, alone) (stops_alone tuns ports ip ts w)
    | inr (t, there) ↦ rw (there, stop_all, alone) (stops_alone tuns ports _ ts _)
  ]

  -- `setupTunnels` behind what `prepare` has come to.
  abbrev behind :
      String
      → Tunnels
      → Result (Dict String × String) × World
      → (Result (Unit {0}) × Tunnels) × World
  behind name ts (err x, w) = ((err x, ts), w)
  behind name ts (ok (portmaps, ipv4), w) =
      start_all name ipv4 portmaps (e.order w.trace (Dict.keys portmaps)) ts e w

  setup_tunnels-behind :
      (name : String) (ts : Tunnels) (w : World) (x : Result (Dict String × String) × World)
      → prepare name e w ≡ x
      → setup_tunnels name ts e w ≡ behind name ts x
  unfolding setup_tunnels
  setup_tunnels-behind name ts w x prepared = unfolded _ ∙ ap (behind name ts) prepared
    where
      unfolded :
          (y : Result (Dict String × String) × World)
          → (elim y.0 [
            | err x ↦ ((err x, ts), y.1)
            | ok (portmaps, ipv4) ↦
                start_all name ipv4 portmaps (e.order (y.1).trace (Dict.keys portmaps)) ts e y.1
          ])
            ≡ behind name ts y
      unfolded (err x, w) = refl
      unfolded (ok (portmaps, ipv4), w) = refl

  setup_alone :
      (name : String) (ts : Tunnels) (w : World)
      → (n : ℕ) × (alone n e i (free ts w) (mapping name) ≡ outcome (setup_tunnels name ts e w))
  unfolding alone advance prepare
  setup_alone name ts w =
      let ends = λ (x : Result (Dict String × String) × World) (p : prepare name e w ≡ x).
        ap outcome (sym (setup_tunnels-behind name ts w x p)) in
      elim (Result-cases (port_maps name e w).0) [
        | inr (x, failed) ↦
            let w1 = (port_maps name e w).1 in
            (
              1,
              alone-step 0 (free ts w) (free ts w1) (mapping name) (returned (err x))
                    (rw failed refl)
                  ∙ ends (err x, w1) (rw failed refl),
            )
        | inl (portmaps, mapped) ↦
            let w1 = (port_maps name e w).1 in
            let maps = λ (n : ℕ).
              alone-step n (free ts w) (free ts w1) (mapping name) (addressing name portmaps)
                (rw mapped refl) in
            elim (Result-cases (ips name e w1).0) [
              | inr (x, failed) ↦
                  let w2 = (ips name e w1).1 in
                  (
                    2,
                    maps 1
                        ∙ alone-step 0 (free ts w1) (free ts w2) (addressing name portmaps)
                            (returned (err x)) (rw failed refl)
                        ∙ ends (err x, w2) (rw (mapped, failed) refl),
                  )
              | inl ((ipv4, ipv6), read) ↦
                  let w2 = (ips name e w1).1 in
                  let w3 = (add_ip_to_local_interface ipv4 e w2).1 in
                  let reads = λ (n : ℕ).
                    alone-step n (free ts w1) (free ts w2) (addressing name portmaps)
                      (adding name portmaps ipv4) (rw read refl) in
                  elim (Result-cases (add_ip_to_local_interface ipv4 e w2).0) [
                    | inr (x, failed) ↦ (
                      3,
                      maps 2
                          ∙ reads 1
                          ∙ alone-step 0 (free ts w2) (free ts w3) (adding name portmaps ipv4)
                              (returned (err x)) (rw failed refl)
                          ∙ ends (err x, w3) (rw (mapped, read, failed) refl),
                    )
                    | inl (_, added) ↦
                        let ports = e.order w3.trace (Dict.keys portmaps) in
                        (
                          suc (suc (suc (suc (beyond 2 ports)))),
                          maps (suc (suc (suc (beyond 2 ports))))
                              ∙ reads (suc (suc (beyond 2 ports)))
                              ∙ alone-step (suc (beyond 2 ports)) (free ts w2) (free ts w3)
                                  (adding name portmaps ipv4) (locking name portmaps ipv4)
                                  (rw added refl)
                              ∙ starts_alone name ipv4 portmaps ports ts w3
                              ∙ ends (ok (portmaps, ipv4), w3) (rw (mapped, read, added) refl),
                        )
                  ]
            ]
      ]

  remove_alone :
      (name : String) (ts : Tunnels) (w : World)
      → let after = remove_tunnels name ts e w in
        (n : ℕ) × (alone n e i (free ts w) (removing name) ≡ finished ts after.1 after.0)
  unfolding alone advance remove_tunnels
  remove_alone name ts w = elim (Option-cases (Dict.lookup name ts)) [
    | inl absent ↦ (2, rw (absent, alone, remove_tunnels) refl)
    | inr (tuns, there) ↦ (
      suc (beyond 3 (e.order w.trace (Dict.keys tuns))),
      rw (there, alone, remove_tunnels) (stops_alone tuns _ "" ts _),
    )
  ]

-- While the mutex is free and no other goroutine moves, the small steps of `setupTunnels` and of
-- `removeTunnels` come to an end, with the result, the tunnels and the calls of the sequential
-- functions, and the mutex free again.
pub alone_is_sequential :
    (e : Env) (i : ℕ) (name : String) (ts : Tunnels) (w : World)
    → ((n : ℕ) × (alone n e i (free ts w) (mapping name) ≡ outcome (setup_tunnels name ts e w)))
      × ((n : ℕ) × (alone n e i (free ts w) (removing name)
            ≡ finished ts (remove_tunnels name ts e w).1 (remove_tunnels name ts e w).0))
alone_is_sequential e i name ts w = (setup_alone e i name ts w, remove_alone e i name ts w)
