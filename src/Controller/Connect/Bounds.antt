-- ===== src/Controller/Connect/Bounds.antt =====
-- How long `getKubeClient` may take: its requests, and the time that it sleeps between them.
use cloud_provider_kind.Base.{
  String, ℕ, zero, suc, ◌+◌, ◌≤◌, Bool, true, false, List, [], ◌∷◌, arith, inl, inr, Bool-cases,
  Option-cases, length, ◌≡◌, refl, ◌*◌,
}
use cloud_provider_kind.Controller.Connect.{
  Attempt, client, skipped, stopped, probe_http, probe_rounds, decide_connectivity, connect, reach,
  attempt, attempts, get_kube_client,
}
use cloud_provider_kind.World.{
  http_get, sleep, ctx_done, kube_config, rest_config, kube_client, Trace, Env, World, Result-cases,
}

-- The number of HTTP requests among the calls, and the seconds that were slept.
unfoldable pub requests : Trace → ℕ
requests [] = 0
requests (http_get url ∷ h) = suc (requests h)
requests (_ ∷ h) = requests h

unfoldable pub slept : Trace → ℕ
slept [] = 0
slept (sleep seconds ∷ h) = seconds + slept h
slept (_ ∷ h) = slept h

-- The seconds of `n` rounds from the one with index `i` on.
unfoldable naps : ℕ → ℕ → ℕ
naps zero i = 0
naps (suc n) i = i + naps n (i + 1)

-- From `w` to `v` at most so many requests are made, and so many seconds slept.
abbrev pub IsWithin : ℕ → ℕ → World → World → Type 0
IsWithin probes seconds w v =
    (requests v.trace ≤ requests w.trace + probes) × (slept v.trace ≤ slept w.trace + seconds)

module _ (e : Env) where
  probe_rounds-IsWithin :
      (n i : ℕ) (host : String) (w : World) → IsWithin n (naps n i) w (probe_rounds n i host e w).1
  unfolding probe_rounds naps requests slept probe_http
  probe_rounds-IsWithin zero i host w = (omega arith, omega arith)
  probe_rounds-IsWithin (suc n) i host w =
      let w1 : World = record w { trace = ctx_done ∷ w.trace } in
      let w2 = (probe_http host e w1).1 in
      let w3 : World = record w2 { trace = sleep i ∷ w2.trace } in
      let (asked, waited) = probe_rounds-IsWithin n (i + 1) host w3 in
      elim (Bool-cases (e.answer w.trace ctx_done)) [
        | inl done ↦ rw (done, probe_rounds) (omega arith, omega arith)
        | inr more ↦ elim (Bool-cases (probe_http host e w1).0) [
          | inl reached ↦ rw (more, reached, probe_rounds) (omega arith, omega arith)
          | inr silent ↦
              rw (more, silent, probe_rounds) (omega (arith, asked), omega (arith, waited))
        ]
      ]

  decide_connectivity-trace :
      (internal : Bool) (w : World) → (decide_connectivity internal e w).1.trace ≡ w.trace
  unfolding decide_connectivity
  decide_connectivity-trace internal w = elim (Bool-cases w.once_done) [
    | inl fired ↦ rw (fired, decide_connectivity) refl
    | inr first ↦ rw (first, decide_connectivity) refl
  ]

  connect-IsWithin :
      (internal : Bool) (host : String) (w : World) → IsWithin 0 0 w (connect internal host e w).1
  unfolding connect requests slept
  connect-IsWithin internal host w = elim (Option-cases (e.answer w.trace (kube_client host))) [
    | inr (x, failed) ↦ rw (failed, connect) (omega arith, omega arith)
    | inl made ↦ rw (made, connect, decide_connectivity-trace internal _) (omega arith, omega arith)
  ]

  -- One endpoint is probed five times at most, with naps of 0 to 4 seconds.
  attempt-IsWithin :
      (cluster : String) (internal : Bool) (w : World)
      → IsWithin 5 10 w (attempt cluster internal e w).1
  unfolding attempt reach requests slept naps
  attempt-IsWithin cluster internal w =
      let asked = kube_config cluster internal in
      elim (Result-cases (e.answer w.trace asked)) [
        | inr (x, failed) ↦ rw (failed, attempt) (omega arith, omega arith)
        | inl (text, given) ↦ elim (Result-cases (e.answer (asked ∷ w.trace) (rest_config text))) [
          | inr (x, failed) ↦ rw (given, failed, attempt) (omega arith, omega arith)
          | inl (host, parsed) ↦ rw (given, parsed, attempt) (reached host _)
        ]
      ]
    where
      reached : (host : String) (v : World) → IsWithin 5 10 v (reach internal host e v).1
      reached host v =
          let (tried, waited) = probe_rounds-IsWithin 5 0 host v in
          elim (Result-cases (probe_rounds 5 0 host e v).0) [
            | inr (x, ended) ↦ rw (ended, reach) (tried, waited)
            | inl (answered, done) ↦ elim (Bool-cases answered) [
              | inr silent ↦ rw (done, silent, reach) (tried, waited)
              | inl yes' ↦
                  let (more, longer) =
                    connect-IsWithin internal host (probe_rounds 5 0 host e v).1 in
                  rw (done, yes', reach) (omega (arith, more, tried), omega (arith, longer, waited))
            ]
          ]

  attempts-IsWithin :
      (cluster : String) (endpoints : List Bool) (w : World)
      → IsWithin (5 * length endpoints) (10 * length endpoints) w (attempts cluster endpoints e w).1
  unfolding attempts
  attempts-IsWithin cluster [] w = (omega arith, omega arith)
  attempts-IsWithin cluster (internal ∷ rest) w =
      go (attempt-IsWithin cluster internal w)
        (attempts-IsWithin cluster rest (attempt cluster internal e w).1) _ refl
    where
      go :
          IsWithin 5 10 w (attempt cluster internal e w).1
          → IsWithin
              (5 * length rest)
              (10 * length rest)
              (attempt cluster internal e w).1
              (attempts cluster rest e (attempt cluster internal e w).1).1
          → (a : Attempt) → (attempt cluster internal e w).0 ≡ a
          → IsWithin
              (5 * length (internal ∷ rest))
              (10 * length (internal ∷ rest))
              w
              (attempts cluster (internal ∷ rest) e w).1
      go (asked, waited) later (client host) h =
          rw (h, attempts) (omega (arith, asked), omega (arith, waited))
      go (asked, waited) later (stopped x) h =
          rw (h, attempts) (omega (arith, asked), omega (arith, waited))
      go (asked, waited) (more, longer) skipped h =
          rw (h, attempts) (omega (arith, asked, more), omega (arith, waited, longer))

-- Whatever it comes to, looking for a client of a cluster makes at most ten HTTP requests and
-- sleeps for at most 20 seconds.
pub get_kube_client_bounds :
    (cluster : String) (e : Env) (w : World)
    → (requests (get_kube_client cluster e w).1.trace ≤ requests w.trace + 10)
      × (slept (get_kube_client cluster e w).1.trace ≤ slept w.trace + 20)
unfolding get_kube_client
get_kube_client_bounds cluster e w = attempts-IsWithin e cluster (true ∷ false ∷ []) w
