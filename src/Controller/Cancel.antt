-- ===== src/Controller/Cancel.antt =====
-- `cancelFn`, which removes what a cluster's load balancers have left.
pub mod Labels
pub mod Calls
pub mod Keeps
pub mod Again
pub mod Created
pub mod Tracked
pub mod Removed
use cloud_provider_kind.Base.{String, ◌<>◌, Bool, true, false, Option, none, some, List, [], ◌∷◌}
use cloud_provider_kind.Api.{Service}
use cloud_provider_kind.Config.{node_ccm_label_key, load_balancer_name_label_key}
use cloud_provider_kind.Container.{list_by_label, get_label_value}
use cloud_provider_kind.Controller.Connect.{Ccm}
use cloud_provider_kind.LoadBalancer.Names.{service_from_load_balancer_simple_name}
use cloud_provider_kind.Provider.{Cloud, Offer, load_balancer, ensure_load_balancer_deleted}
use cloud_provider_kind.World.{Err, Result, ok, err, cancel, Proc, perform, pure, lift, ◌>>=◌, ◌>>◌}

-- Deletes the load balancer of a service, if there is one. A failure is logged only.
unfoldable pub delete_service : Cloud → String × Option Service → Proc (Result (Unit {0}))
delete_service cloud (cluster_name, none) = pure tt
delete_service cloud (cluster_name, some fake) = do
  ignored ← lift (ensure_load_balancer_deleted cloud cluster_name fake)
  pure tt

-- Deletes the load balancer that a label names.
unfoldable pub delete_labelled : Cloud → String → Proc (Result (Unit {0}))
unfolding delete_service
delete_labelled cloud label = delete_service cloud (service_from_load_balancer_simple_name label)

-- One round of the loop over the containers.
unfoldable pub delete_container : Cloud → String → Proc (Result (Unit {0}))
unfolding delete_labelled
delete_container cloud name = do
  v ← lift (get_label_value name load_balancer_name_label_key)
  elim v [ err x ↦ pure tt | ok label ↦ delete_labelled cloud label ]

unfoldable pub delete_containers : Cloud → List String → Proc (Result (Unit {0}))
unfolding delete_container
delete_containers cloud [] = pure tt
delete_containers cloud (name ∷ names) = do
  delete_container cloud name
  delete_containers cloud names

-- The loop over the containers, where the cloud has load balancers. A nil interface would panic at
-- its first call.
unfoldable pub delete_with : Offer → List String → Proc (Result (Unit {0}))
unfolding delete_containers
delete_with (lb_controller, false) names = pure tt
delete_with (none, true) names = pure tt
delete_with (some lb_controller, true) names = delete_containers lb_controller names

unfoldable pub cancel_fn : Ccm → Proc (Result (Unit {0}))
unfolding delete_with
cancel_fn c = do
  ignored ← lift (perform (cancel c.cluster_name))
  listed ← list_by_label (node_ccm_label_key <> ("=" <> c.cluster_name))
  elim listed.1 [ some x ↦ pure tt | none ↦ delete_with (load_balancer c.cloud) listed.0 ]
