-- ===== src/Controller/Added.antt =====
-- Which clusters a round of `Run` starts.
use cloud_provider_kind.Base.{
  String, ◌==◌, string_eq, contains, Bool-cases, eq_of_==, ==-self, ◌≡◌, ◌∙◌, refl, ap, Bool, true,
  false, some, none, ◌⊎◌, ◌++◌, List, [], ◌∷◌, inl, inr, Option-cases,
}
use cloud_provider_kind.Base.Dict
use cloud_provider_kind.Base.Dict.{lookup-insert}
use cloud_provider_kind.Controller.Connect.{Ccm, decide_connectivity}
use cloud_provider_kind.Controller.Rounds.{
  Clusters, start_cluster, add_cluster, add_clusters, round,
}
use cloud_provider_kind.Controller.Kept.{
  add_clusters-keep, listing, addition, round-going, round_keeps,
}
use cloud_provider_kind.Controller.Starting.{add_cluster_keep}
use cloud_provider_kind.World.{
  Err, err, Action, Trace, list_clusters, ctx_done, Env, World, Result-cases,
}

-- A world after these calls.
abbrev pub Since : Trace → World → Type 0
Since h0 w = (calls : Trace) × (w.trace ≡ calls ++ h0)

module _ (e : Env) (h0 : Trace) where
  Since-later : (a : Action) (w : World) → Since h0 w → Since h0 (record w { trace = a ∷ w.trace })
  Since-later a w (calls, is) = (a ∷ calls, ap (λ h. a ∷ h) is)

  Since-decided :
      (internal : Bool) (w : World) → Since h0 w → Since h0 (decide_connectivity internal e w).1
  unfolding decide_connectivity
  Since-decided internal w s = elim (Bool-cases w.once_done) [
    | inl fired ↦ rw (fired, decide_connectivity) s
    | inr fresh ↦ rw (fresh, decide_connectivity) s
  ]

  module _ (c : String) where
    -- The cluster could not be started when it was tried after these calls.
    abbrev pub Fails : Type 0
    Fails = (v : World) × Since h0 v × ((x : Err) × ((start_cluster c e v).0 ≡ err x))

    add_cluster_self :
        (clusters : Clusters) (w : World)
        → Since h0 w
        → ((m : Ccm) × (Dict.lookup c (add_cluster c clusters e w).0 ≡ some m)) ⊎ Fails
    unfolding add_cluster
    add_cluster_self clusters w s = elim (Option-cases (Dict.lookup c clusters)) [
      | inr (m, there) ↦ inl (m, rw (there, add_cluster) there)
      | inl fresh ↦ elim (Result-cases (start_cluster c e w).0) [
        | inr (x, failed) ↦ inr (w, s, (x, failed))
        | inl (m, started) ↦
            inl
              (m, rw (fresh, started, add_cluster) (lookup-insert c c m clusters ∙ rw (==-self c)))
      ]
    ]

    add_clusters-listed :
        (listed : List String) (clusters : Clusters) (w : World)
        → Since h0 w
        → (add_clusters listed clusters e w).0.0 ≡ false
        → contains listed c ≡ true
        → ((m : Ccm) × (Dict.lookup c (add_clusters listed clusters e w).0.1 ≡ some m)) ⊎ Fails
    unfolding add_clusters
    add_clusters-listed [] clusters w s going i = absurd (cc)
    add_clusters-listed (cluster ∷ listed) clusters w s going i =
        let w1 : World = record w { trace = ctx_done ∷ w.trace } in
        let s1 : Since h0 w1 = Since-later ctx_done w s in
        elim (Bool-cases (e.answer w.trace ctx_done)) [
          | inl done ↦ let wrong : true ≡ false = rw done at going in absurd (cc)
          | inr more ↦ elim (Bool-cases (c == cluster)) [
            | inl same ↦
                let is : c ≡ cluster = eq_of_== c cluster same in
                elim (add_cluster_self clusters w1 s1) [
                  | inr fails ↦ inr fails
                  | inl (m, there) ↦
                      inl (m, rw more (add_clusters-keep e c m listed _ _ (rw (← is) there)))
                ]
            | inr other ↦
                let s2 =
                  add_cluster_keep e (Since h0) (λ a v _ h. Since-later a v h) Since-decided cluster
                    clusters w1 s1 in
                elim (add_clusters-listed listed _ _ s2 (rw more at going) (rw other at i)) [
                  | inr fails ↦ inr fails
                  | inl (m, there) ↦ inl (m, rw more there)
                ]
          ]
        ]

-- After a round that the context does not stop while it adds clusters, a cluster that kind listed
-- has a manager, or it had none and starting it failed when the round tried, after the listing.
pub round_adds :
    (c : String) (clusters : Clusters) (e : Env) (w : World)
    → (addition clusters e w).0.0 ≡ false
    → contains (listing e w) c ≡ true
    → ((m : Ccm) × (Dict.lookup c (round clusters e w).0.1 ≡ some m))
      ⊎ ((Dict.lookup c clusters ≡ none)
          × ((v : World) × ((calls : Trace) × (v.trace ≡ calls ++ list_clusters ∷ w.trace))
              × ((x : Err) × ((start_cluster c e v).0 ≡ err x))))
round_adds c clusters e w going listed = elim (Option-cases (Dict.lookup c clusters)) [
  | inr (m, has) ↦ inl (m, round_keeps c m clusters e w has listed)
  | inl fresh ↦
      elim (add_clusters-listed e (list_clusters ∷ w.trace) c (listing e w) clusters _ ([], refl)
        going listed) [
          | inr fails ↦ inr (fresh, fails)
          | inl (m, there) ↦ inl (m, round-going c clusters e w going ∙ rw listed there)
        ]
]
