-- ===== src/Controller/Starting.antt =====
-- What listing and starting clusters leaves true.
use cloud_provider_kind.Base.{
  String, ℕ, zero, suc, Bool, Bool-cases, true, false, ◌==◌, nat_eq, ◌≡◌, refl, List, [], ◌∷◌, ◌⊎◌,
  inl, inr, Option-cases, ◌+◌,
}
use cloud_provider_kind.Base.Dict
use cloud_provider_kind.Controller.Connect.{
  probe_http, probe_rounds, decide_connectivity, Attempt, client, skipped, stopped, connect, reach,
  attempt, attempts, get_kube_client, poll_health, start_nodes, start_cloud_controller_manager,
}
use cloud_provider_kind.Controller.Rounds.{Clusters, start_cluster, add_cluster, add_clusters}
use cloud_provider_kind.Provider.{Cloud, new_cloud}
use cloud_provider_kind.World.{
  Err, ok, Action, list_clusters, ctx_done, http_get, sleep, cancel, kube_client, kube_config,
  rest_config, node_controller, run_node_controller, start_informers, healthz, feature_gates,
  poll_budget, service_controller, run_service_controller, check, config, lift, pure, perform, Env,
  World, Result-cases, Keeps, >>=-Keeps, pure-Keeps,
}

-- The calls of a round until all clusters are added.
pub data IsStarting : Action → Type 0 where
  lists_clusters : IsStarting list_clusters
  asks : IsStarting ctx_done
  configures : (cluster : String) (internal : Bool) → IsStarting (kube_config cluster internal)
  parses : (kconfig : String) → IsStarting (rest_config kconfig)
  probes : (url : String) → IsStarting (http_get url)
  waits : (seconds : ℕ) → IsStarting (sleep seconds)
  connects : (host : String) → IsStarting (kube_client host)
  gates : IsStarting feature_gates
  polls : IsStarting (poll_budget 1 30)
  checks : (host : String) → IsStarting (healthz host)
  makes_service : (cluster : String) → IsStarting (service_controller cluster)
  runs_service : (cluster : String) → IsStarting (run_service_controller cluster)
  makes_nodes : (cluster : String) → IsStarting (node_controller cluster)
  runs_nodes : (cluster : String) → IsStarting (run_node_controller cluster)
  informs : (cluster : String) → IsStarting (start_informers cluster)
  ends : (cluster : String) → IsStarting (cancel cluster)

module _ (e : Env) (P : World → Type 0)
    (law : (a : Action) (w : World) → IsStarting a → P w → P (record w { trace = a ∷ w.trace }))
    (decided : (internal : Bool) (w : World) → P w → P (decide_connectivity internal e w).1) where
  probe_rounds_keep :
      (rounds i : ℕ) (host : String) (w : World) → P w → P (probe_rounds rounds i host e w).1
  unfolding probe_rounds
  probe_rounds_keep zero i host w h = h
  probe_rounds_keep (suc rounds) i host w h =
      let h1 = law ctx_done w asks h in
      let h2 = law (http_get host) _ (probes host) h1 in
      let h3 = law (sleep i) _ (waits i) h2 in
      elim (Bool-cases (e.answer w.trace ctx_done)) [
        | inl done ↦ rw (done, probe_rounds) h1
        | inr more ↦
            elim (Bool-cases (probe_http host e (record w { trace = ctx_done ∷ w.trace })).0) [
              | inl reached ↦ rw (more, reached, probe_rounds) h2
              | inr silent ↦
                  rw (more, silent, probe_rounds) (probe_rounds_keep rounds (i + 1) host _ h3)
            ]
      ]

  connect_keep :
      (internal : Bool) (host : String) (w : World) → P w → P (connect internal host e w).1
  unfolding connect
  connect_keep internal host w h =
      let h1 = law (kube_client host) w (connects host) h in
      elim (Option-cases (e.answer w.trace (kube_client host))) [
        | inr (x, failed) ↦ rw (failed, connect) h1
        | inl made ↦ rw (made, connect) (decided internal _ h1)
      ]

  reach_keep : (internal : Bool) (host : String) (w : World) → P w → P (reach internal host e w).1
  unfolding reach
  reach_keep internal host w h =
      let probed = probe_rounds_keep 5 0 host w h in
      elim (Result-cases (probe_rounds 5 0 host e w).0) [
        | inr (x, ended) ↦ rw (ended, reach) probed
        | inl (reached, done) ↦ elim (Bool-cases reached) [
          | inr silent ↦ rw (done, silent, reach) probed
          | inl answered ↦ rw (done, answered, reach) (connect_keep internal host _ probed)
        ]
      ]

  attempt_keep :
      (cluster : String) (internal : Bool) (w : World) → P w → P (attempt cluster internal e w).1
  unfolding attempt
  attempt_keep cluster internal w h =
      let asked = kube_config cluster internal in
      let h1 = law asked w (configures cluster internal) h in
      elim (Result-cases (e.answer w.trace asked)) [
        | inr (x, failed) ↦ rw (failed, attempt) h1
        | inl (text, given) ↦ elim (Result-cases (e.answer (asked ∷ w.trace) (rest_config text))) [
          | inr (x, failed) ↦
              rw (given, failed, attempt) (law (rest_config text) _ (parses text) h1)
          | inl (host, parsed) ↦
              rw (given, parsed, attempt)
                (reach_keep internal host _ (law (rest_config text) _ (parses text) h1))
        ]
      ]

  Attempt-cases :
      (a : Attempt)
      → ((host : String) × (a ≡ client host)) ⊎ ((a ≡ skipped) ⊎ ((x : Err) × (a ≡ stopped x)))
  Attempt-cases (client host) = inl (host, refl)
  Attempt-cases skipped = inr (inl refl)
  Attempt-cases (stopped x) = inr (inr (x, refl))

  attempts_keep :
      (cluster : String) (endpoints : List Bool) (w : World)
      → P w
      → P (attempts cluster endpoints e w).1
  unfolding attempts
  attempts_keep cluster [] w h = h
  attempts_keep cluster (internal ∷ rest) w h =
      let tried = attempt_keep cluster internal w h in
      elim (Attempt-cases (attempt cluster internal e w).0) [
        | inl (host, is) ↦ rw (is, attempts) tried
        | inr (inl is) ↦ rw (is, attempts) (attempts_keep cluster rest _ tried)
        | inr (inr (x, is)) ↦ rw (is, attempts) tried
      ]

  poll_health_keep : (n : ℕ) (host : String) (w : World) → P w → P (poll_health n host e w).1
  unfolding poll_health
  poll_health_keep zero host w h = h
  poll_health_keep (suc n) host w h =
      let h1 = law (healthz host) w (checks host) h in
      elim (Bool-cases (e.answer w.trace (healthz host) == 200)) [
        | inl healthy ↦ rw (healthy, poll_health) h1
        | inr not_yet ↦ rw (not_yet, poll_health) (poll_health_keep n host _ h1)
      ]

  start_nodes_keep : (cluster : String) (w : World) → P w → P (start_nodes cluster e w).1
  unfolding start_nodes
  start_nodes_keep cluster w h =
      let h1 = law (node_controller cluster) w (makes_nodes cluster) h in
      let h2 = law (run_node_controller cluster) _ (runs_nodes cluster) h1 in
      elim (Option-cases (e.answer w.trace (node_controller cluster))) [
        | inr (x, failed) ↦ rw (failed, start_nodes) (law (cancel cluster) _ (ends cluster) h1)
        | inl started ↦
            rw (started, start_nodes) (law (start_informers cluster) _ (informs cluster) h2)
      ]

  start_cloud_controller_manager-Keeps :
      (c host : String) (cloud : Cloud) → Keeps e P (start_cloud_controller_manager c host cloud)
  unfolding start_cloud_controller_manager
  start_cloud_controller_manager-Keeps c host cloud =
      >>=-Keeps e P (lift (perform feature_gates)) _ (record { keep = λ w h. law _ w gates h })
        (λ answered.
          >>=-Keeps e P {A = Unit {0}} (λ e w. (check answered, w)) _
            (pure-Keeps e P (λ e w. check answered))
            (λ _.
              >>=-Keeps e P (lift (perform (poll_budget 1 30))) _
                (record { keep = λ w h. law _ w polls h })
                (λ n.
                  >>=-Keeps e P (poll_health n host) _ (record { keep = poll_health_keep n host })
                    (λ _.
                      >>=-Keeps e P (lift (perform (service_controller c))) _
                        (record { keep = λ w h. law _ w (makes_service c) h })
                        (λ service.
                          >>=-Keeps e P {A = Unit {0}} (λ e w. (check service, w)) _
                            (pure-Keeps e P (λ e w. check service))
                            (λ _.
                              >>=-Keeps e P (lift (perform (run_service_controller c))) _
                                (record { keep = λ w h. law _ w (runs_service c) h })
                                (λ _.
                                  >>=-Keeps e P (start_nodes c)
                                    (λ _. pure (record { cluster_name = c; cloud = cloud }))
                                    (record { keep = start_nodes_keep c })
                                    (λ _. pure-Keeps e P (λ e w.
                                      ok (record { cluster_name = c; cloud = cloud }))))))))))

  pub get_kube_client-Keeps : (c : String) → Keeps e P (get_kube_client c)
  unfolding get_kube_client
  get_kube_client-Keeps c = record { keep = attempts_keep c (true ∷ false ∷ []) }

  pub start_cluster-Keeps : (c : String) → Keeps e P (start_cluster c)
  unfolding start_cluster
  start_cluster-Keeps c = >>=-Keeps e P (get_kube_client c) _ (get_kube_client-Keeps c) (λ host.
      >>=-Keeps e P (lift config) (λ conf. start_cloud_controller_manager c host (new_cloud c conf))
        (record { keep = λ w h. h })
        (λ conf. start_cloud_controller_manager-Keeps c host (new_cloud c conf)))

  pub add_cluster_keep :
      (c : String) (clusters : Clusters) (w : World) → P w → P (add_cluster c clusters e w).1
  unfolding add_cluster
  add_cluster_keep c clusters w h = elim (Option-cases (Dict.lookup c clusters)) [
    | inr (old, there) ↦ rw (there, add_cluster) h
    | inl fresh ↦
        let kept = (start_cluster-Keeps c).keep w h in
        elim (Result-cases (start_cluster c e w).0) [
          | inr (x, failed) ↦ rw (fresh, failed, add_cluster) kept
          | inl (m, started) ↦ rw (fresh, started, add_cluster) kept
        ]
  ]

  pub add_clusters-Keeps :
      (listed : List String) (clusters : Clusters) → Keeps e P (add_clusters listed clusters)
  unfolding add_clusters
  add_clusters-Keeps [] clusters = record { keep = λ w h. h }
  add_clusters-Keeps (c ∷ listed) clusters = record {
    keep = λ w h.
        let h1 = law ctx_done w asks h in
        elim (Bool-cases (e.answer w.trace ctx_done)) [
          | inl done ↦ rw done h1
          | inr more ↦
              rw more ((add_clusters-Keeps listed _).keep _ (add_cluster_keep c clusters _ h1))
        ];
  }
