-- ===== src/Controller/System/Decided.antt =====
-- That all clouds reach their load balancers in the way that `Main` has decided, in every
-- reachable state.
use cloud_provider_kind.Base.{
  String, contains, string_eq, Bool-cases, ◌≡◌, refl, sym, ap, ◌∙◌, some, none, List, [], ◌∷◌, inl,
  inr, Option-cases,
}
use cloud_provider_kind.Base.Dict
use cloud_provider_kind.Config.{Connectivity, is_tunnel}
use cloud_provider_kind.Controller.Cleanup.{cleanup_lem}
use cloud_provider_kind.Controller.Connect.{Ccm, get_kube_client, start_cloud_controller_manager}
use cloud_provider_kind.Controller.Dropped.{drop_all-Keeps, remove_expired-Keeps}
use cloud_provider_kind.Controller.Kept.{listing, addition, round-going}
use cloud_provider_kind.Controller.Rounds.{
  Clusters, start_cluster, add_cluster, add_clusters, round, cleanup,
}
use cloud_provider_kind.Controller.System.{
  System, system, Step, serves, rounds, cleans, Reach, start, later,
}
use cloud_provider_kind.Controller.Starting.{start_cluster-Keeps, get_kube_client-Keeps}
use cloud_provider_kind.Controller.System.Client.{IsMode, decide_connectivity-IsMode}
use cloud_provider_kind.Controller.System.Listening.{lookup_nothing, lookup-insert-cases}
use cloud_provider_kind.Controller.System.Owned.{start_cloud_controller_manager-Leads}
use cloud_provider_kind.Provider.{new_cloud}
use cloud_provider_kind.World.{
  ok, ctx_done, list_clusters, config, lift, Env, World, Result-cases, Leads, >>=-Leads,
  Keeps-Leads,
}
use cloud_provider_kind.Controller.System.Mode.{
  has_tunnel_manager, AllInMode, new_server_manager, serve_manager, serve-IsMode,
}

module _ (e : Env) (k : Connectivity) where
  -- A cluster that is started gets a cloud in the mode of the configuration.
  start_cluster-Leads :
      (c : String)
      → Leads e
          (IsMode k)
          (start_cluster c)
          (λ m _. has_tunnel_manager m.cloud.lb_controller ≡ is_tunnel k)
  unfolding start_cluster new_cloud
  start_cluster-Leads c =
      let R : Ccm → World → Type 0 =
        λ m _. has_tunnel_manager m.cloud.lb_controller ≡ is_tunnel k in
      >>=-Leads e (IsMode k) (get_kube_client c) (λ _. IsMode k) _ R
        (Keeps-Leads e (IsMode k) (get_kube_client c)
          (get_kube_client-Keeps e (IsMode k) (λ a w _ h. h) (decide_connectivity-IsMode e k) c))
        (λ host.
          >>=-Leads e (IsMode k) (lift config) (λ conf _. conf.load_balancer_connectivity ≡ k)
            (λ conf. start_cloud_controller_manager c host (new_cloud c conf)) R
            (record {
              lead = λ w conf h done.
                  let same : ok w.config ≡ ok conf = done in
                  let is : w.config ≡ conf = cc in
                  ap (λ d. d.load_balancer_connectivity) (sym is) ∙ h;
            })
            (λ conf. record {
              lead = λ w m is done.
                  let made =
                    (start_cloud_controller_manager-Leads e c host (new_cloud c conf)).lead w m tt
                      done in
                  rw made (new_server_manager conf ∙ ap is_tunnel is);
            }))

  abbrev InMode : System → Type 0
  InMode s = IsMode k s.world × AllInMode k s.clusters

  insert-AllInMode :
      (c : String) (m : Ccm) (clusters : Clusters)
      → has_tunnel_manager m.cloud.lb_controller ≡ is_tunnel k
      → AllInMode k clusters
      → AllInMode k (Dict.insert c m clusters)
  insert-AllInMode c m clusters this all c' m' has =
      elim (lookup-insert-cases c' c m m' clusters has) [
        | inl (_, is) ↦ rw (← is) this
        | inr before ↦ all c' m' before
      ]

  add_cluster-InMode :
      (c : String) (clusters : Clusters) (w : World)
      → IsMode k w
      → AllInMode k clusters
      → IsMode k (add_cluster c clusters e w).1 × AllInMode k (add_cluster c clusters e w).0
  unfolding add_cluster
  add_cluster-InMode c clusters w h all = elim (Option-cases (Dict.lookup c clusters)) [
    | inr (old, there) ↦ rw (there, add_cluster) (h, all)
    | inl fresh ↦
        let kept =
          (start_cluster-Keeps e (IsMode k) (λ a w _ h. h) (decide_connectivity-IsMode e k) c).keep
            w h in
        elim (Result-cases (start_cluster c e w).0) [
          | inr (x, failed) ↦ rw (fresh, failed, add_cluster) (kept, all)
          | inl (m, started) ↦
              rw (fresh, started, add_cluster)
                (
                  kept,
                  insert-AllInMode c m clusters ((start_cluster-Leads c).lead w m h started) all,
                )
        ]
  ]

  add_clusters-InMode :
      (listed : List String) (clusters : Clusters) (w : World)
      → IsMode k w
      → AllInMode k clusters
      → IsMode k (add_clusters listed clusters e w).1
        × AllInMode k (add_clusters listed clusters e w).0.1
  unfolding add_clusters
  add_clusters-InMode [] clusters w h all = (h, all)
  add_clusters-InMode (c ∷ listed) clusters w h all =
      let w1 : World = record w { trace = ctx_done ∷ w.trace } in
      elim (Bool-cases (e.answer w.trace ctx_done)) [
        | inl done ↦ rw done (h, all)
        | inr more ↦
            let (h', all') = add_cluster-InMode c clusters w1 h all in
            rw more (add_clusters-InMode listed _ _ h' all')
      ]

  round-IsMode :
      (clusters : Clusters) (w : World)
      → IsMode k w
      → AllInMode k clusters
      → IsMode k (round clusters e w).1
  unfolding round
  round-IsMode clusters w h all =
      let w1 : World = record w { trace = list_clusters ∷ w.trace } in
      let (h', _) = add_clusters-InMode (listing e w) clusters w1 h all in
      elim (Bool-cases (addition clusters e w).0.0) [
        | inl stopped ↦ rw (stopped, round) h'
        | inr going ↦
            rw (going, round)
              ((remove_expired-Keeps e (IsMode k) (λ a v _ h. h) (listing e w) _ _).keep _ h')
      ]

  round-AllInMode :
      (clusters : Clusters) (w : World)
      → IsMode k w
      → AllInMode k clusters
      → AllInMode k (round clusters e w).0.1
  unfolding round
  round-AllInMode clusters w h all =
      let w1 : World = record w { trace = list_clusters ∷ w.trace } in
      let (_, added) = add_clusters-InMode (listing e w) clusters w1 h all in
      elim (Bool-cases (addition clusters e w).0.0) [
        | inl stopped ↦ rw (stopped, round) added
        | inr going ↦ λ c m has.
            let law = sym (round-going c clusters e w going) ∙ has in
            elim (Bool-cases (contains (listing e w) c)) [
              | inl here ↦ added c m (rw here at law)
              | inr gone ↦ let wrong : none ≡ some m = rw gone at law in absurd (cc)
            ]
      ]

  cleanup-InMode :
      (clusters : Clusters) (w : World) → IsMode k w → InMode (system (cleanup clusters e w))
  unfolding cleanup
  cleanup-InMode clusters w h = (
    (drop_all-Keeps e (IsMode k) (λ a v _ h. h) (e.order w.trace (Dict.keys clusters))
          clusters).keep
        w h,
    λ c m has. let wrong : none ≡ some m = sym (cleanup_lem e c clusters w) ∙ has in absurd (cc),
  )

  Step-InMode : {s t : System} → Step e s t → InMode s → InMode t
  Step-InMode {s} (serves c m call has) (h, all) = (
    serve-IsMode e k call m s.world h,
    insert-AllInMode c _ s.clusters (serve_manager e k call m s.world ∙ all c m has) all,
  )
  Step-InMode {s} rounds (h, all) =
      (round-IsMode s.clusters s.world h all, round-AllInMode s.clusters s.world h all)
  Step-InMode {s} cleans (h, all) = cleanup-InMode s.clusters s.world h

-- Whatever the rounds of `Run`, the calls of the managers and `cleanup` do, the load balancer
-- connectivity of the configuration stays what it is when the controller starts, and every cloud
-- has a tunnel manager if that is the one with tunnels, and has none otherwise.
pub Reach-AllInMode :
    (e : Env) (w : World) (s : System)
    → Reach e w s
    → (s.world.config.load_balancer_connectivity ≡ w.config.load_balancer_connectivity)
      × AllInMode w.config.load_balancer_connectivity s.clusters
Reach-AllInMode e w _ start = (refl, λ c m has. lookup_nothing c m has _)
Reach-AllInMode e w _ (later {s} r step) =
    Step-InMode e w.config.load_balancer_connectivity step (Reach-AllInMode e w s r)
