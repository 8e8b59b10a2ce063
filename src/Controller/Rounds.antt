-- ===== src/Controller/Rounds.antt =====
-- `Run` and `cleanup`: the rounds of the controller over the listed clusters.
use cloud_provider_kind.Base.{
  String, ℕ, zero, suc, string_eq, contains, Bool, true, false, none, some, List, [], ◌∷◌,
}
use cloud_provider_kind.Base.Dict
use cloud_provider_kind.Base.Dict.{Dict}
use cloud_provider_kind.Controller.Connect.{Ccm, get_kube_client, start_cloud_controller_manager}
use cloud_provider_kind.Controller.Cancel.{cancel_fn}
use cloud_provider_kind.Provider.{new_cloud}
use cloud_provider_kind.World.{
  Result, ok, err, list_clusters, ctx_done, done_within, Proc, perform, range, config, lift, ◌>>=◌,
}

-- `c.clusters`
abbrev pub Clusters : Type 0
Clusters = Dict Ccm

-- What a new cluster gets: a client, a cloud and a running manager.
unfoldable pub start_cluster : String → Proc (Result Ccm)
unfolding new_cloud
start_cluster cluster = do
  host ← get_kube_client cluster
  c ← lift config
  start_cloud_controller_manager cluster host (new_cloud cluster c)

-- A cluster that fails to start is left for the next round.
unfoldable pub add_cluster : String → Clusters → Proc Clusters
unfolding start_cluster
add_cluster cluster clusters e w = elim (Dict.lookup cluster clusters) [
  | some old ↦ (clusters, w)
  | none ↦
      let (r, w') = start_cluster cluster e w in
      elim r [ err x ↦ (clusters, w') | ok ccm ↦ (Dict.insert cluster ccm clusters, w') ]
]

-- The loop over the listed clusters. `true` means that the context was done.
unfoldable pub add_clusters : List String → Clusters → Proc (Bool × Clusters)
unfolding add_cluster
add_clusters [] clusters e w = ((false, clusters), w)
add_clusters (cluster ∷ rest) clusters e w =
    let (done, w1) = perform ctx_done e w in
    elim done [
      | true ↦ ((true, clusters), w1)
      | false ↦
          let (clusters', w2) = add_cluster cluster clusters e w1 in
          add_clusters rest clusters' e w2
    ]

-- Cancels the manager of a cluster and forgets it.
unfoldable pub drop_cluster : String → Clusters → Proc Clusters
drop_cluster cluster clusters e w = elim (Dict.lookup cluster clusters) [
  | none ↦ (clusters, w)
  | some ccm ↦ let (_, w') = cancel_fn ccm e w in (Dict.erase cluster clusters, w')
]

-- The loop over `c.clusters` that removes those which are not listed.
unfoldable pub remove_expired : List String → List String → Clusters → Proc Clusters
unfolding drop_cluster
remove_expired listed [] clusters e w = (clusters, w)
remove_expired listed (cluster ∷ rest) clusters e w = elim (contains listed cluster) [
  | true ↦ remove_expired listed rest clusters e w
  | false ↦
      let (clusters', w') = drop_cluster cluster clusters e w in
      remove_expired listed rest clusters' e w'
]

-- One round of `Run`. An error of the listing is logged only, and the list that came with it is
-- used. `true` means that `Run` returns.
unfoldable pub round : Clusters → Proc (Bool × Clusters)
unfolding add_clusters remove_expired
round clusters e w =
    let ((listed, error), w1) = perform list_clusters e w in
    let ((done, added), w2) = add_clusters listed clusters e w1 in
    elim done [
      | true ↦ ((true, added), w2)
      | false ↦
          let (keys, w3) = range (Dict.keys added) e w2 in
          let (kept, w4) = remove_expired listed keys added e w3 in
          let (finished, w5) = perform (done_within 30) e w4 in ((finished, kept), w5)
    ]

-- The loop of `cleanup`.
unfoldable pub drop_all : List String → Clusters → Proc Clusters
unfolding drop_cluster
drop_all [] clusters e w = (clusters, w)
drop_all (cluster ∷ rest) clusters e w =
    let (clusters', w') = drop_cluster cluster clusters e w in drop_all rest clusters' e w'

unfoldable pub cleanup : Clusters → Proc Clusters
unfolding drop_all
cleanup clusters e w =
    let (keys, w') = range (Dict.keys clusters) e w in drop_all keys clusters e w'

-- At most `n` rounds of `Run`, and `cleanup` where it returns. `true` means that it has returned.
unfoldable pub run_rounds : ℕ → Clusters → Proc (Bool × Clusters)
unfolding round cleanup
run_rounds zero clusters e w = ((false, clusters), w)
run_rounds (suc n) clusters e w =
    let ((done, clusters'), w') = round clusters e w in
    elim done [
      | true ↦ let (left, w'') = cleanup clusters' e w' in ((true, left), w'')
      | false ↦ run_rounds n clusters' e w'
    ]
