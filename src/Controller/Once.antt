-- ===== src/Controller/Once.antt =====
-- The connectivity of the control plane is decided once.
use cloud_provider_kind.Base.{
  String, ℕ, zero, suc, ◌+◌, Bool, Bool-cases, ◌≡◌, refl, ◌∙◌, true, false, List, [], ◌∷◌, inl, inr,
  Option-cases,
}
use cloud_provider_kind.Controller.Connect.{
  probe_http, probe_rounds, decide_connectivity, Attempt, client, skipped, stopped, connect, reach,
  attempt, attempts, get_kube_client,
}
use cloud_provider_kind.World.{
  sleep, ctx_done, kube_client, kube_config, rest_config, Env, World, Result-cases,
}

-- The second world has the configuration of the first, and `once` has fired in it if it had.
abbrev pub Same : World → World → Type 0
Same w w' = (w'.config ≡ w.config) × (w'.once_done ≡ w.once_done)

pub probe_rounds-Same :
    (n i : ℕ) (host : String) (e : Env) (w : World) → Same w (probe_rounds n i host e w).1
unfolding probe_rounds probe_http
probe_rounds-Same zero i host e w = (refl, refl)
probe_rounds-Same (suc n) i host e w =
    let w1 : World = record w { trace = ctx_done ∷ w.trace } in
    let w2 = (probe_http host e w1).1 in
    let w3 : World = record w2 { trace = sleep i ∷ w2.trace } in
    let ih = probe_rounds-Same n (i + 1) host e w3 in
    elim (Bool-cases (e.answer w.trace ctx_done)) [
      | inl done ↦ rw (done, probe_rounds) (refl, refl)
      | inr more ↦ elim (Bool-cases (probe_http host e w1).0) [
        | inl reached ↦ rw (more, reached, probe_rounds) (refl, refl)
        | inr silent ↦ rw (more, silent, probe_rounds) ih
      ]
    ]

decide_connectivity-Same :
    (internal : Bool) (e : Env) (w : World)
    → w.once_done ≡ true
    → Same w (decide_connectivity internal e w).1
unfolding decide_connectivity
decide_connectivity-Same internal e w fired = rw (fired, decide_connectivity) (refl, refl)

connect-Same :
    (internal : Bool) (host : String) (e : Env) (w : World)
    → w.once_done ≡ true
    → Same w (connect internal host e w).1
unfolding connect
connect-Same internal host e w fired = elim (Option-cases (e.answer w.trace (kube_client host))) [
  | inr (x, failed) ↦ rw (failed, connect) (refl, refl)
  | inl made ↦ rw (made, connect) (decide_connectivity-Same internal e _ fired)
]

module _ (e : Env) where
  reach-Same :
      (internal : Bool) (host : String) (w : World)
      → w.once_done ≡ true
      → Same w (reach internal host e w).1
  unfolding reach
  reach-Same internal host w fired =
      let probes = probe_rounds 5 0 host e w in
      let (kept, once_kept) = probe_rounds-Same 5 0 host e w in
      elim (Result-cases probes.0) [
        | inr (x, ended) ↦ rw (ended, reach) (kept, once_kept)
        | inl (reached, done) ↦ elim (Bool-cases reached) [
          | inr silent ↦ rw (done, silent, reach) (kept, once_kept)
          | inl yes' ↦
              let (c, o) = connect-Same internal host e probes.1 (once_kept ∙ fired) in
              rw (done, yes', reach) (c ∙ kept, o ∙ once_kept)
        ]
      ]

  attempt-Same :
      (cluster : String) (internal : Bool) (w : World)
      → w.once_done ≡ true
      → Same w (attempt cluster internal e w).1
  unfolding attempt
  attempt-Same cluster internal w fired =
      let asked = kube_config cluster internal in
      elim (Result-cases (e.answer w.trace asked)) [
        | inr (x, failed) ↦ rw (failed, attempt) (refl, refl)
        | inl (text, given) ↦ elim (Result-cases (e.answer (asked ∷ w.trace) (rest_config text))) [
          | inr (x, failed) ↦ rw (given, failed, attempt) (refl, refl)
          | inl (host, parsed) ↦ rw (given, parsed, attempt) (reach-Same internal host _ fired)
        ]
      ]

  attempts-Same :
      (cluster : String) (endpoints : List Bool) (w : World)
      → w.once_done ≡ true
      → Same w (attempts cluster endpoints e w).1
  unfolding attempts
  attempts-Same cluster [] w fired = (refl, refl)
  attempts-Same cluster (internal ∷ rest) w fired =
      let (c, o) = attempt-Same cluster internal w fired in
      go (attempts-Same cluster rest _ (o ∙ fired)) _ refl
    where
      go :
          Same
            (attempt cluster internal e w).1
            (attempts cluster rest e (attempt cluster internal e w).1).1
          → (a : Attempt) → (attempt cluster internal e w).0 ≡ a
          → Same w (attempts cluster (internal ∷ rest) e w).1
      go later (client host) h = rw (h, attempts) (attempt-Same cluster internal w fired)
      go later (stopped x) h = rw (h, attempts) (attempt-Same cluster internal w fired)
      go (c', o') skipped h =
          let (c, o) = attempt-Same cluster internal w fired in rw (h, attempts) (c' ∙ c, o' ∙ o)

-- Once the connectivity of the control plane is decided, looking for a client, for whatever
-- cluster and with whatever outcome, changes the configuration no more and leaves it decided.
pub get_kube_client-decided :
    (cluster : String) (e : Env) (w : World)
    → w.once_done ≡ true
    → ((get_kube_client cluster e w).1.config ≡ w.config)
      × ((get_kube_client cluster e w).1.once_done ≡ true)
unfolding get_kube_client
get_kube_client-decided cluster e w fired =
    let (c, o) = attempts-Same e cluster (true ∷ false ∷ []) w fired in (c, o ∙ fired)
