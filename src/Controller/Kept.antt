-- ===== src/Controller/Kept.antt =====
-- Which managers a round of `Run` keeps.
use cloud_provider_kind.Base.{
  String, ◌==◌, string_eq, contains, if◌then◌else◌, Bool, Bool-cases, eq_of_==, ==-ne, ◌≡◌, refl,
  sym, ap, ◌∙◌, arith, true, false, not, ◌&&◌, ◌||◌, some, none, Option, List, [], ◌∷◌, inl, inr,
  Option-cases,
}
use cloud_provider_kind.Base.Dict
use cloud_provider_kind.Base.Entries.{contains-order}
use cloud_provider_kind.Base.Dict.{Dict, lookup-insert, lookup-erase}
use cloud_provider_kind.Controller.Connect.{Ccm}
use cloud_provider_kind.Controller.Rounds.{
  Clusters, start_cluster, add_cluster, add_clusters, drop_cluster, remove_expired, round,
}
use cloud_provider_kind.World.{Err, Result-cases, list_clusters, ctx_done, Env, World}

module _ (e : Env) (c : String) (m : Ccm) where
  add_cluster-keep :
      (cluster : String) (clusters : Clusters) (w : World)
      → Dict.lookup c clusters ≡ some m
      → Dict.lookup c (add_cluster cluster clusters e w).0 ≡ some m
  unfolding add_cluster
  add_cluster-keep cluster clusters w h = elim (Option-cases (Dict.lookup cluster clusters)) [
    | inr (old, there) ↦ rw (there, add_cluster) h
    | inl fresh ↦ elim (Result-cases (start_cluster cluster e w).0) [
      | inl (ccm, started) ↦
          let other : (c == cluster) ≡ false = ==-ne c cluster (λ same. absurd (cc)) in
          rw (fresh, started, add_cluster) (rw (lookup-insert, other) h)
      | inr (x, failed) ↦ rw (fresh, failed, add_cluster) h
    ]
  ]

  pub add_clusters-keep :
      (listed : List String) (clusters : Clusters) (w : World)
      → Dict.lookup c clusters ≡ some m
      → Dict.lookup c (add_clusters listed clusters e w).0.1 ≡ some m
  unfolding add_clusters
  add_clusters-keep [] clusters w h = h
  add_clusters-keep (cluster ∷ listed) clusters w h =
      let w1 : World = record w { trace = ctx_done ∷ w.trace } in
      elim (Bool-cases (e.answer w.trace ctx_done)) [
        | inl done ↦ rw done h
        | inr more ↦ rw more (add_clusters-keep listed _ _ (add_cluster-keep cluster clusters w1 h))
      ]

pub lookup-drop_cluster :
    (e : Env) (c cluster : String) (clusters : Clusters) (w : World)
    → Dict.lookup c (drop_cluster cluster clusters e w).0
      ≡ (if c == cluster then none else Dict.lookup c clusters)
unfolding drop_cluster
lookup-drop_cluster e c cluster clusters w = elim (Option-cases (Dict.lookup cluster clusters)) [
  | inr (old, there) ↦ rw (there, drop_cluster) (lookup-erase c cluster clusters)
  | inl absent ↦ elim (Bool-cases (c == cluster)) [
    | inl same ↦ rw (absent, drop_cluster) (rw same (rw (eq_of_== c cluster same) absent))
    | inr other ↦ rw (absent, drop_cluster) (rw other)
  ]
]

-- What the visit of one more cluster adds.
visit_kept :
    {A : Type 0} (c k : String) (listed keys : List String) (x : Option A)
    → contains listed k ≡ true
    → (if contains keys c && not (contains listed c) then none else x)
      ≡ (if (c == k || contains keys c) && not (contains listed c) then none else x)
visit_kept c k listed keys x kept = elim (Bool-cases (c == k)) [
  | inl same ↦ let here : contains listed c ≡ true = rw (eq_of_== c k same) kept in ground arith
  | inr differ ↦ rw differ
]

visit_expired :
    {A : Type 0} (c k : String) (listed keys : List String) (x : Option A)
    → contains listed k ≡ false
    → (if contains keys c && not (contains listed c) then none else (if c == k then none else x))
      ≡ (if (c == k || contains keys c) && not (contains listed c) then none else x)
visit_expired c k listed keys x expired = elim (Bool-cases (c == k)) [
  | inl same ↦ let here : contains listed c ≡ false = rw (eq_of_== c k same) expired in ground arith
  | inr differ ↦ rw differ
]

-- The loop drops exactly the visited clusters that are not listed.
lookup-remove_expired :
    (e : Env) (c : String) (listed keys : List String) (clusters : Clusters) (w : World)
    → Dict.lookup c (remove_expired listed keys clusters e w).0
      ≡ (if contains keys c && not (contains listed c) then none else Dict.lookup c clusters)
unfolding remove_expired
lookup-remove_expired e c listed [] clusters w = refl
lookup-remove_expired e c listed (k ∷ keys) clusters w = elim (Bool-cases (contains listed k)) [
  | inl kept ↦
      rw (kept, remove_expired)
        (lookup-remove_expired e c listed keys clusters w ∙ visit_kept c k listed keys _ kept)
  | inr expired ↦
      rw (expired, remove_expired)
        (lookup-remove_expired e c listed keys _ _
          ∙ (rw (lookup-drop_cluster e c k clusters w) (visit_expired c k listed keys _ expired)))
]

-- The loop over all keys keeps exactly what is listed.
lookup-expired :
    (e : Env) (c : String) (listed : List String) (clusters : Clusters) (w : World)
    → Dict.lookup c (remove_expired listed (e.order w.trace (Dict.keys clusters)) clusters e w).0
      ≡ (if contains listed c then Dict.lookup c clusters else none)
lookup-expired e c listed clusters w =
    let keys = e.order w.trace (Dict.keys clusters) in
    lookup-remove_expired e c listed keys clusters w
    ∙ elim (Option-cases (Dict.lookup c clusters)) [
      | inr (m, there) ↦
          rw (contains-order c m clusters keys (e.order-perm w.trace _) there)
            (elim (Bool-cases (contains listed c)) [ inl here ↦ rw here | inr gone ↦ rw gone ])
      | inl absent ↦
          rw absent (nothing (contains keys c && not (contains listed c)) (contains listed c))
    ]
  where
    nothing :
        (a b : Bool) → (if◌then◌else◌ {A = Option Ccm} a none none) ≡ (if b then none else none)
    nothing a b = ground arith

-- The listing of a round, and what it adds before it looks for clusters to remove.
abbrev pub listing : Env → World → List String
listing e w = (e.answer w.trace list_clusters).0

abbrev pub addition : Clusters → Env → World → (Bool × Clusters) × World
addition clusters e w =
    add_clusters (listing e w) clusters e (record w { trace = list_clusters ∷ w.trace })

pub round-going :
    (c : String) (clusters : Clusters) (e : Env) (w : World)
    → (addition clusters e w).0.0 ≡ false
    → Dict.lookup c (round clusters e w).0.1
      ≡ (if contains (listing e w) c then Dict.lookup c (addition clusters e w).0.1 else none)
unfolding round
round-going c clusters e w going =
    rw (going, round) (lookup-expired e c (listing e w) (addition clusters e w).0.1 _)

-- After a round that the context did not stop while it added clusters, only the clusters that kind
-- listed in this round have a manager.
pub round_only_listed :
    (c : String) (m : Ccm) (clusters : Clusters) (e : Env) (w : World)
    → (addition clusters e w).0.0 ≡ false
    → Dict.lookup c (round clusters e w).0.1 ≡ some m
    → contains (listing e w) c ≡ true
round_only_listed c m clusters e w going h = elim (Bool-cases (contains (listing e w) c)) [
  | inl here ↦ here
  | inr gone ↦
      let law = round-going c clusters e w going in
      let dropped : none ≡ some m = sym (rw gone at law) ∙ h in cc
]

-- A cluster that is listed keeps the manager that it has, in every round.
pub round_keeps :
    (c : String) (m : Ccm) (clusters : Clusters) (e : Env) (w : World)
    → Dict.lookup c clusters ≡ some m
    → contains (listing e w) c ≡ true
    → Dict.lookup c (round clusters e w).0.1 ≡ some m
unfolding round
round_keeps c m clusters e w has listed =
    let w1 : World = record w { trace = list_clusters ∷ w.trace } in
    let added = add_clusters-keep e c m (listing e w) clusters w1 has in
    elim (Bool-cases (addition clusters e w).0.0) [
      | inl stopped ↦ rw (stopped, round) added
      | inr going ↦ rw (round-going c clusters e w going, listed) added
    ]

-- If kind fails to list the clusters and gives an empty list with its error, the round removes
-- the managers of all clusters.
pub round_failed_listing :
    (c : String) (clusters : Clusters) (e : Env) (w : World) (x : Err)
    → e.answer w.trace list_clusters ≡ ([], some x)
    → Dict.lookup c (round clusters e w).0.1 ≡ none
unfolding add_clusters
round_failed_listing c clusters e w x failed =
    let empty : listing e w ≡ [] = ap (λ p. p.0) failed in
    rw (round-going c clusters e w (rw empty), empty)
