-- ===== src/Controller/System/Owned.antt =====
-- What a reachable controller knows of its clusters.
use cloud_provider_kind.Base.{
  String, string_eq, contains, Bool-cases, ◌≡◌, refl, sym, ◌∙◌, some, none, List, [], ◌∷◌, inl, inr,
  Option-cases,
}
use cloud_provider_kind.Base.Dict
use cloud_provider_kind.Base.Dict.{Dict, lookup-insert}
use cloud_provider_kind.Config.{Config, is_tunnel}
use cloud_provider_kind.Controller.Cleanup.{cleanup_lem}
use cloud_provider_kind.Controller.Connect.{
  Ccm, get_kube_client, poll_health, start_nodes, start_cloud_controller_manager,
}
use cloud_provider_kind.Controller.Kept.{listing, addition, round-going}
use cloud_provider_kind.Controller.Rounds.{
  Clusters, start_cluster, add_cluster, add_clusters, round, cleanup,
}
use cloud_provider_kind.Controller.System.{
  Call, get, ensure, update, delete, exists, shutdown, metadata, serve, System, Step, serves,
  rounds, cleans, Reach, start, later,
}
use cloud_provider_kind.Controller.System.Listening.{
  nothing-AllListen, lookup_nothing, lookup-insert-cases, ServerListens,
  ensure_load_balancer-ServerListens,
}
use cloud_provider_kind.LoadBalancer.Server.{new_server}
use cloud_provider_kind.Provider.{Cloud, new_cloud, ensure_load_balancer}
use cloud_provider_kind.World.{
  Result, ok, Proc, config, pure, lift, perform, check, ctx_done, feature_gates, poll_budget,
  service_controller, run_service_controller, Env, World, Result-cases, Leads, >>=-Leads, ◌>>=◌,
}

-- A manager and its cloud go by the name of the cluster that they are kept under, and the tunnels
-- that the cloud keeps listen.
pub record IsOwned (c : String) (m : Ccm) : Type 0 where
  pub own_name : m.cluster_name ≡ c
  pub own_cloud : m.cloud.cluster_name ≡ c
  pub tunnels_listen : ServerListens m.cloud.lb_controller

abbrev pub AllOwned : Clusters → Type 0
AllOwned clusters = (c : String) (m : Ccm) → Dict.lookup c clusters ≡ some m → IsOwned c m

new_server-ServerListens : (c : Config) → ServerListens (new_server c)
unfolding new_server
new_server-ServerListens c ts has = elim (Bool-cases (is_tunnel c.load_balancer_connectivity)) [
  | inl tunnels ↦
      let is : some [] ≡ some ts = rw tunnels at has in
      let same : [] ≡ ts = cc in rw (← same) nothing-AllListen
  | inr direct ↦ let wrong : none ≡ some ts = rw direct at has in absurd (cc)
]

module _ (e : Env) where
  abbrev pub Anything : World → Type 0
  Anything w = Unit

  -- Whatever the first part of a chain gives, its last part gives what is wanted.
  last-Leads {ℓ κ} :
      {A : Type ℓ} {B : Type κ} (m : Proc (Result A)) (f : A → Proc (Result B))
      (R : B → World → Type 0)
      → ((a : A) → Leads e Anything (f a) R)
      → Leads e Anything (m >>= f) R
  last-Leads m f R each =
      >>=-Leads e Anything m (λ _ _. Unit) f R (record { lead = λ w a _ _. tt }) each

  pub start_cloud_controller_manager-Leads :
      (c host : String) (cloud : Cloud)
      → Leads e Anything
          (start_cloud_controller_manager c host cloud)
          (λ m _. m ≡ record { cluster_name = c; cloud = cloud })
  unfolding start_cloud_controller_manager
  start_cloud_controller_manager-Leads c host cloud =
      let made : Ccm = record { cluster_name = c; cloud = cloud } in
      let R : Ccm → World → Type 0 = λ m _. m ≡ made in
      let last : Leads e Anything (pure made) R = record {
        lead = λ w m _ done. let is : ok made ≡ ok m = done in sym (cc);
      } in
      last-Leads (lift (perform feature_gates)) _ R (λ gates.
        last-Leads {A = Unit {0}} (λ e w. (check gates, w)) _ R
          (λ _. last-Leads (lift (perform (poll_budget 1 30))) _ R (λ n.
            last-Leads (poll_health n host) _ R (λ _.
              last-Leads (lift (perform (service_controller c))) _ R (λ service.
                last-Leads {A = Unit {0}} (λ e w. (check service, w)) _ R
                  (λ _.
                    last-Leads (lift (perform (run_service_controller c))) _ R
                      (λ _. last-Leads (start_nodes c) (λ _. pure made) R (λ _. last))))))))

  start_cluster-Leads : (c : String) → Leads e Anything (start_cluster c) (λ m _. IsOwned c m)
  unfolding start_cluster new_cloud
  start_cluster-Leads c =
      let R : Ccm → World → Type 0 = λ m _. IsOwned c m in
      last-Leads (get_kube_client c) _ R (λ host.
        last-Leads (lift config) (λ conf. start_cloud_controller_manager c host (new_cloud c conf))
          R
          (λ conf. record {
            lead = λ w m _ done.
                let made =
                  (start_cloud_controller_manager-Leads c host (new_cloud c conf)).lead w m tt
                    done in
                rw made (record {
                  own_name = refl;
                  own_cloud = refl;
                  tunnels_listen = new_server-ServerListens conf;
                });
          }))

  insert-AllOwned :
      (c : String) (m : Ccm) (clusters : Clusters)
      → IsOwned c m
      → AllOwned clusters
      → AllOwned (Dict.insert c m clusters)
  insert-AllOwned c m clusters owned all c' m' has =
      elim (lookup-insert-cases c' c m m' clusters has) [
        | inl (same, is) ↦ rw (same, ← is) owned
        | inr before ↦ all c' m' before
      ]

  add_cluster-AllOwned :
      (c : String) (clusters : Clusters) (w : World)
      → AllOwned clusters
      → AllOwned (add_cluster c clusters e w).0
  unfolding add_cluster
  add_cluster-AllOwned c clusters w all = elim (Option-cases (Dict.lookup c clusters)) [
    | inr (old, there) ↦ rw (there, add_cluster) all
    | inl fresh ↦ elim (Result-cases (start_cluster c e w).0) [
      | inr (x, failed) ↦ rw (fresh, failed, add_cluster) all
      | inl (m, started) ↦
          rw (fresh, started, add_cluster)
            (insert-AllOwned c m clusters ((start_cluster-Leads c).lead w m tt started) all)
    ]
  ]

  add_clusters-AllOwned :
      (listed : List String) (clusters : Clusters) (w : World)
      → AllOwned clusters
      → AllOwned (add_clusters listed clusters e w).0.1
  unfolding add_clusters
  add_clusters-AllOwned [] clusters w all = all
  add_clusters-AllOwned (c ∷ listed) clusters w all =
      let w1 : World = record w { trace = ctx_done ∷ w.trace } in
      elim (Bool-cases (e.answer w.trace ctx_done)) [
        | inl done ↦ rw done all
        | inr more ↦
            rw more (add_clusters-AllOwned listed _ _ (add_cluster-AllOwned c clusters w1 all))
      ]

  round-AllOwned :
      (clusters : Clusters) (w : World) → AllOwned clusters → AllOwned (round clusters e w).0.1
  unfolding round
  round-AllOwned clusters w all =
      let added = add_clusters-AllOwned (listing e w) clusters _ all in
      elim (Bool-cases (addition clusters e w).0.0) [
        | inl stopped ↦ rw (stopped, round) added
        | inr going ↦ λ c m has.
            let law = sym (round-going c clusters e w going) ∙ has in
            elim (Bool-cases (contains (listing e w) c)) [
              | inl here ↦ added c m (rw here at law)
              | inr gone ↦ let wrong : none ≡ some m = rw gone at law in absurd (cc)
            ]
      ]

  cleanup-AllOwned : (clusters : Clusters) (w : World) → AllOwned (cleanup clusters e w).0
  cleanup-AllOwned clusters w c m has =
      let wrong : none ≡ some m = sym (cleanup_lem e c clusters w) ∙ has in absurd (cc)

  serve-IsOwned :
      (call : Call) (c : String) (m : Ccm) (w : World)
      → IsOwned c m
      → IsOwned c (serve call m e w).0
  unfolding serve ensure_load_balancer
  serve-IsOwned (get service) c m w o = o
  serve-IsOwned (ensure service nodes) c m w o = record {
    own_name = o.own_name;
    own_cloud = o.own_cloud;
    tunnels_listen =
        ensure_load_balancer-ServerListens e m.cluster_name service m.cloud.lb_controller nodes w
          o.tunnels_listen;
  }
  serve-IsOwned (update service nodes) c m w o = o
  serve-IsOwned (delete service) c m w o = o
  serve-IsOwned (exists node) c m w o = o
  serve-IsOwned (shutdown node) c m w o = o
  serve-IsOwned (metadata node) c m w o = o

  Step-AllOwned : {s t : System} → Step e s t → AllOwned s.clusters → AllOwned t.clusters
  Step-AllOwned {s} (serves c m call has) all =
      insert-AllOwned c _ s.clusters (serve-IsOwned call c m s.world (all c m has)) all
  Step-AllOwned {s} rounds all = round-AllOwned s.clusters s.world all
  Step-AllOwned {s} cleans all = cleanup-AllOwned s.clusters s.world

-- However the rounds of `Run`, the calls of the managers and `cleanup` follow each other, every
-- manager and its cloud go by the name of the cluster that they are kept under, and every tunnel
-- that a cloud keeps has a listener and is on the port that it is kept under.
pub Reach-AllOwned : (e : Env) (w : World) (s : System) → Reach e w s → AllOwned s.clusters
Reach-AllOwned e w _ start = λ c m has. lookup_nothing c m has (IsOwned c m)
Reach-AllOwned e w _ (later {s} r step) = Step-AllOwned e step (Reach-AllOwned e w s r)
