-- ===== src/Controller/First.antt =====
-- How the first client decides the connectivity of the control plane.
use cloud_provider_kind.Base.{
  String, Bool, Bool-cases, ◌≡◌, refl, ◌∙◌, true, false, [], ◌∷◌, ◌⊎◌, inl, inr, Option-cases,
}
use cloud_provider_kind.Config.{Config, direct}
use cloud_provider_kind.Controller.Connect.{
  probe_rounds, decide_connectivity, Attempt, client, skipped, stopped, connect, reach, attempt,
  attempts, get_kube_client,
}
use cloud_provider_kind.Controller.Once.{Same, probe_rounds-Same}
use cloud_provider_kind.World.{
  Err, ok, err, kube_client, kube_config, rest_config, Env, World, Result-cases,
}

-- The configuration with direct connectivity, or as it is.
abbrev pub decided : Bool → Config → Config
decided true c = record c { control_plane_connectivity = direct }
decided false c = c

-- A client decides by its endpoint; without one nothing is decided.
data Outcome (internal : Bool) (w : World) (a : Attempt) (w' : World) : Type 0 where
  connected :
      (host : String)
      → a ≡ client host
      → w'.config ≡ decided internal w.config
      → w'.once_done ≡ true
      → Outcome internal w a w'
  passed : a ≡ skipped → Same w w' → Outcome internal w a w'
  ended : (x : Err) → a ≡ stopped x → Same w w' → Outcome internal w a w'

decide_connectivity_lem :
    (internal : Bool) (e : Env) (w : World)
    → w.once_done ≡ false
    → ((decide_connectivity internal e w).1.config ≡ decided internal w.config)
      × ((decide_connectivity internal e w).1.once_done ≡ true)
unfolding decide_connectivity
decide_connectivity_lem true e w fresh = rw (fresh, decide_connectivity) (refl, refl)
decide_connectivity_lem false e w fresh = rw (fresh, decide_connectivity) (refl, refl)

module _ (e : Env) where
  connect-Outcome :
      (internal : Bool) (host : String) (w : World)
      → w.once_done ≡ false
      → Outcome internal w (connect internal host e w).0 (connect internal host e w).1
  unfolding connect
  connect-Outcome internal host w fresh =
      elim (Option-cases (e.answer w.trace (kube_client host))) [
        | inr (x, failed) ↦ rw (failed, connect) (passed refl (refl, refl))
        | inl made ↦
            let w1 : World = record w { trace = kube_client host ∷ w.trace } in
            let (c, o) = decide_connectivity_lem internal e w1 fresh in
            rw (made, connect) (connected host refl c o)
      ]

  -- Calls before that change neither the configuration nor `once` do not matter.
  Outcome-later :
      {internal : Bool} {w w1 w' : World} {a : Attempt}
      → Same w w1
      → Outcome internal w1 a w'
      → Outcome internal w a w'
  Outcome-later {internal} (c, o) (connected host is config' fired) =
      connected host is (rw (← c) config') fired
  Outcome-later (c, o) (passed is (c', o')) = passed is (c' ∙ c, o' ∙ o)
  Outcome-later (c, o) (ended x is (c', o')) = ended x is (c' ∙ c, o' ∙ o)

  reach-Outcome :
      (internal : Bool) (host : String) (w : World)
      → w.once_done ≡ false
      → Outcome internal w (reach internal host e w).0 (reach internal host e w).1
  unfolding reach
  reach-Outcome internal host w fresh =
      let probes = probe_rounds 5 0 host e w in
      let same = probe_rounds-Same 5 0 host e w in
      elim (Result-cases probes.0) [
        | inr (x, is) ↦ rw (is, reach) (ended x refl same)
        | inl (reached, done) ↦ elim (Bool-cases reached) [
          | inr silent ↦ rw (done, silent, reach) (passed refl same)
          | inl answered ↦
              rw (done, answered, reach)
                (Outcome-later same (connect-Outcome internal host probes.1 (same.1 ∙ fresh)))
        ]
      ]

  attempt-Outcome :
      (cluster : String) (internal : Bool) (w : World)
      → w.once_done ≡ false
      → Outcome internal w (attempt cluster internal e w).0 (attempt cluster internal e w).1
  unfolding attempt
  attempt-Outcome cluster internal w fresh =
      let asked = kube_config cluster internal in
      elim (Result-cases (e.answer w.trace asked)) [
        | inr (x, failed) ↦ rw (failed, attempt) (passed refl (refl, refl))
        | inl (text, given) ↦ elim (Result-cases (e.answer (asked ∷ w.trace) (rest_config text))) [
          | inr (x, failed) ↦ rw (given, failed, attempt) (passed refl (refl, refl))
          | inl (host, parsed) ↦
              rw (given, parsed, attempt)
                (Outcome-later {internal = internal}
                  {w1 = record w { trace = rest_config text ∷ asked ∷ w.trace }} (refl, refl)
                  (reach-Outcome internal host _ fresh))
        ]
      ]

  -- The rest of the loop, once the internal endpoint has been passed.
  external-lem :
      (cluster : String) (w : World)
      → w.once_done ≡ false
      → ((host : String)
          → (attempts cluster (false ∷ []) e w).0 ≡ ok host
          → ((attempts cluster (false ∷ []) e w).1.config ≡ w.config)
            × ((attempts cluster (false ∷ []) e w).1.once_done ≡ true))
        × ((x : Err)
            → (attempts cluster (false ∷ []) e w).0 ≡ err x
            → Same w (attempts cluster (false ∷ []) e w).1)
  unfolding attempts
  external-lem cluster w fresh = elim (attempt-Outcome cluster false w fresh) [
    | connected host is config' fired ↦
        rw (is, attempts) (λ h done. (config', fired), λ x failed. absurd (cc))
    | passed is same ↦ rw (is, attempts) (λ h done. absurd (cc), λ x failed. same)
    | ended x is same ↦ rw (is, attempts) (λ h done. absurd (cc), λ x' failed. same)
  ]

-- While the connectivity of the control plane is not decided, a client decides it: direct if the
-- internal endpoint gave the client, as it was if the external one did. If there is no client,
-- the configuration is as it was and nothing is decided.
pub get_kube_client_decides :
    (cluster : String) (e : Env) (w : World)
    → w.once_done ≡ false
    → let first = (attempt cluster true e w).0 in
      let after = get_kube_client cluster e w in
      ((host : String)
        → after.0 ≡ ok host
        → (after.1.once_done ≡ true)
          × (((first ≡ client host)
                × (after.1.config ≡ record w.config { control_plane_connectivity = direct }))
              ⊎ ((first ≡ skipped) × (after.1.config ≡ w.config))))
      × ((x : Err) → after.0 ≡ err x → (after.1.config ≡ w.config) × (after.1.once_done ≡ false))
unfolding get_kube_client attempts
get_kube_client_decides cluster e w fresh = elim (attempt-Outcome e cluster true w fresh) [
  | connected host is config' fired ↦
      rw (is, attempts)
        (λ h done. (fired, inl (rw (client_host done) refl, config')), λ x failed. absurd (cc))
  | passed is (c, o) ↦
      let (good, bad) = external-lem e cluster (attempt cluster true e w).1 (o ∙ fresh) in
      rw (is, attempts)
        (
          λ h done. let (config', fired) = good h done in (fired, inr (refl, config' ∙ c)),
          λ x failed. let (c', o') = bad x failed in (c' ∙ c, o' ∙ o ∙ fresh),
        )
  | ended x is (c, o) ↦ rw (is, attempts) (λ h done. absurd (cc), λ x' failed. (c, o ∙ fresh))
]
  where
    client_host : {h k : String} → ok h ≡ ok k → h ≡ k
    client_host p = cc
