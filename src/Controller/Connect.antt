-- ===== src/Controller/Connect.antt =====
-- `getKubeClient` and `startCloudControllerManager`.
pub mod Bounds
use cloud_provider_kind.Base.{
  String, ℕ, zero, suc, ◌+◌, ◌==◌, nat_eq, if◌then◌else◌, Bool, true, false, none, some, List, [],
  ◌∷◌,
}
use cloud_provider_kind.Config.{direct}
use cloud_provider_kind.Provider.{Cloud}
use cloud_provider_kind.World.{
  Err, errorf, Result, ok, err, Response, http_get, kube_config, sleep, ctx_done, rest_config,
  kube_client, healthz, feature_gates, service_controller, run_service_controller, node_controller,
  run_node_controller, start_informers, cancel, poll_budget, Proc, perform, pure, lift, check,
  ◌>>=◌, ◌>>◌,
}

abbrev pub ctx_error : Err
ctx_error = errorf "context canceled"

-- `probeHTTP`: any answer will do.
abbrev answered : Result Response → Bool
answered (ok resp) = true
answered (err x) = false

unfoldable pub probe_http : String → Proc Bool
probe_http address e w = let (resp, w') = perform (http_get address) e w in (answered resp, w')

-- The loop over `i`, with `rounds` rounds left: whether the server answered. A context that is
-- done ends `getKubeClient` as a whole.
unfoldable pub probe_rounds : ℕ → ℕ → String → Proc (Result Bool)
unfolding probe_http
probe_rounds zero i host e w = (ok false, w)
probe_rounds (suc rounds) i host e w =
    let (done, w1) = perform ctx_done e w in
    let (reached, w2) = probe_http host e w1 in
    let again = probe_rounds rounds (i + 1) host e (perform (sleep i) e w2).1 in
    if done then (err ctx_error, w1) else if reached then (ok true, w2) else again

-- `once.Do`
unfoldable pub decide_connectivity : Bool → Proc (Result (Unit {0}))
decide_connectivity internal e w = if w.once_done then (ok tt, w) else (
  ok tt,
  record w {
    once_done = true;
    config =
        if internal then record (w.config) { control_plane_connectivity = direct } else w.config;
  },
)

-- What one round of the loop over `internal` comes to.
pub data Attempt : Type 0 where
  client : String → Attempt
  skipped : Attempt
  stopped : Err → Attempt

unfoldable pub connect : Bool → String → Proc Attempt
unfolding decide_connectivity
connect internal host e w =
    let (error, w') = perform (kube_client host) e w in
    elim error [
      | some x ↦ (skipped, w')
      | none ↦ let (_, w'') = decide_connectivity internal e w' in (client host, w'')
    ]

unfoldable pub reach : Bool → String → Proc Attempt
unfolding probe_rounds connect
reach internal host e w =
    let (r, w') = probe_rounds 5 0 host e w in
    elim r [
      | err x ↦ (stopped x, w')
      | ok reached ↦ if reached then connect internal host e w' else (skipped, w')
    ]

unfoldable pub attempt : String → Bool → Proc Attempt
unfolding reach
attempt cluster internal e w =
    let (kconfig, w1) = perform (kube_config cluster internal) e w in
    elim kconfig [
      | err x ↦ (skipped, w1)
      | ok text ↦
          let (host, w2) = perform (rest_config text) e w1 in
          elim host [ err x ↦ (skipped, w2) | ok h ↦ reach internal h e w2 ]
    ]

abbrev pub no_client : Err
no_client = errorf "can not find a working kubernetes clientset"

-- The loop over the endpoints: the internal one first.
unfoldable pub attempts : String → List Bool → Proc (Result String)
attempts cluster [] e w = (err no_client, w)
attempts cluster (internal ∷ rest) e w =
    let (a, w') = attempt cluster internal e w in
    elim a [
      | client host ↦ (ok host, w')
      | skipped ↦ attempts cluster rest e w'
      | stopped x ↦ (err x, w')
    ]

unfoldable pub get_kube_client : String → Proc (Result String)
unfolding attempts attempt
get_kube_client cluster = attempts cluster (true ∷ false ∷ [])

abbrev not_healthy : Err
not_healthy = errorf "context deadline exceeded"

-- `wait.PollUntilContextTimeout` over the check of `/healthz`.
unfoldable pub poll_health : ℕ → String → Proc (Result (Unit {0}))
poll_health zero host e w = (err not_healthy, w)
poll_health (suc rounds) host e w =
    let (code, w') = perform (healthz host) e w in
    let again = poll_health rounds host e w' in if code == 200 then (ok tt, w') else again

-- The node controller, whose failure cancels the context of the service controller.
unfoldable pub start_nodes : String → Proc (Result (Unit {0}))
start_nodes cluster e w =
    let (error, w') = perform (node_controller cluster) e w in
    elim error [
      | some x ↦ let (_, w'') = perform (cancel cluster) e w' in (err x, w'')
      | none ↦
          let (_, w'') = perform (run_node_controller cluster) e w' in
          let (_, w3) = perform (start_informers cluster) e w'' in (ok tt, w3)
    ]

-- Go's `*ccm`: what its `cancelFn` closes over.
pub record Ccm : Type 0 where
  pub cluster_name : String
  pub cloud : Cloud

unfoldable pub start_cloud_controller_manager : String → String → Cloud → Proc (Result Ccm)
unfolding poll_health start_nodes
start_cloud_controller_manager cluster_name host cloud = do
  gates ← lift (perform feature_gates)
  λ e w. (check gates, w)
  rounds ← lift (perform (poll_budget 1 30))
  poll_health rounds host
  service ← lift (perform (service_controller cluster_name))
  λ e w. (check service, w)
  lift (perform (run_service_controller cluster_name))
  start_nodes cluster_name
  pure (record { cluster_name = cluster_name; cloud = cloud })
