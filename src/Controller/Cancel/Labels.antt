-- ===== src/Controller/Cancel/Labels.antt =====
-- Which container `cancelFn` removes for a container that it has listed.
use cloud_provider_kind.Base.{String, ◌≡◌, refl, ◌∙◌, ap, none, [], ◌∷◌}
use cloud_provider_kind.Base.Text.{Lacks}
use cloud_provider_kind.Api.{Service, named_service}
use cloud_provider_kind.Config.{load_balancer_name_label_key}
use cloud_provider_kind.Container.{get_label_value}
use cloud_provider_kind.Controller.Cancel.{delete_labelled, delete_container}
use cloud_provider_kind.LoadBalancer.Names.{load_balancer_simple_name, load_balancer_name}
use cloud_provider_kind.LoadBalancer.Names.RoundTrip.{service_from-simple_name}
use cloud_provider_kind.LoadBalancer.Server.Deleted.{ensure_load_balancer_deleted_lem}
use cloud_provider_kind.Provider.{Cloud, ensure_load_balancer_deleted}
use cloud_provider_kind.World.{ok, Trace, run, Env, World}

-- A name depends only on the cluster and on the service's namespace and name.
pub load_balancer_name-named_service :
    (cluster_name : String) (service : Service)
    → load_balancer_name cluster_name (named_service service.namespace service.name)
      ≡ load_balancer_name cluster_name service
unfolding load_balancer_name load_balancer_simple_name
load_balancer_name-named_service cluster_name service = refl

module _ (cloud : Cloud) (cluster_name : String) (service : Service) (e : Env) where
  abbrev EndsInRemoval : World → Type 0
  EndsInRemoval w =
      (before : Trace) × (w.trace
        ≡ run (e.runtime ∷ "rm" ∷ "-f" ∷ load_balancer_name cluster_name service ∷ []) none
          ∷ before)

  deleted-EndsInRemoval :
      (w : World)
      → EndsInRemoval
          (ensure_load_balancer_deleted cloud cluster_name
            (named_service service.namespace service.name)
            e
            w).1
  unfolding ensure_load_balancer_deleted
  deleted-EndsInRemoval w =
      let fake = named_service service.namespace service.name in
      let (before, calls, _) =
        ensure_load_balancer_deleted_lem cloud.lb_controller cluster_name fake e w in
      (
        before,
        calls
            ∙ ap (λ (name : String). run (e.runtime ∷ "rm" ∷ "-f" ∷ name ∷ []) none ∷ before)
                (load_balancer_name-named_service cluster_name service),
      )

  delete_labelled-EndsInRemoval :
      (w : World)
      → Lacks "/" cluster_name
      → Lacks "/" service.namespace
      → Lacks "/" service.name
      → EndsInRemoval (delete_labelled cloud (load_balancer_simple_name cluster_name service) e w).1
  unfolding delete_labelled
  delete_labelled-EndsInRemoval w hc hn hs =
      rw (service_from-simple_name cluster_name service hc hn hs) (deleted-EndsInRemoval w)

-- For a container whose label is the simple name of a service, no part of which holds a slash,
-- the latest call of the loop in `cancelFn` removes by force the container that
-- `EnsureLoadBalancer` makes for this service.
pub delete_container_lem :
    (cloud : Cloud) (cluster_name : String) (service : Service) (e : Env) (container : String)
    (w : World)
    → Lacks "/" cluster_name
    → Lacks "/" service.namespace
    → Lacks "/" service.name
    → (get_label_value container load_balancer_name_label_key e w).0
      ≡ ok (load_balancer_simple_name cluster_name service)
    → (before : Trace) × ((delete_container cloud container e w).1.trace
        ≡ run (e.runtime ∷ "rm" ∷ "-f" ∷ load_balancer_name cluster_name service ∷ []) none
          ∷ before)
unfolding delete_container
delete_container_lem cloud cluster_name service e container w hc hn hs label =
    rw label (delete_labelled-EndsInRemoval cloud cluster_name service e _ hc hn hs)
