-- ===== src/Controller/System.antt =====
-- The controller together with the managers that it has started. A manager calls the cloud of its
-- cluster from its own goroutines; each call is one step, in any order with the rounds of `Run`.
pub mod Listening
pub mod Owned
pub mod Client
pub mod Mode
pub mod Decided
use cloud_provider_kind.Base.{String, ◌≡◌, some, List, []}
use cloud_provider_kind.Base.Dict
use cloud_provider_kind.Api.{Service, Node}
use cloud_provider_kind.Controller.Connect.{Ccm}
use cloud_provider_kind.Controller.Rounds.{Clusters, round, cleanup}
use cloud_provider_kind.Provider.{
  get_load_balancer, ensure_load_balancer, update_load_balancer, ensure_load_balancer_deleted,
  instance_exists, instance_shutdown, instance_metadata,
}
use cloud_provider_kind.World.{Env, World, Proc}

-- What the service controller and the node controller call.
pub data Call : Type 0 where
  get : Service → Call
  ensure : Service → List Node → Call
  update : Service → List Node → Call
  delete : Service → Call
  exists : String → Call
  shutdown : String → Call
  metadata : String → Call

-- A call on the cloud of a manager, under the name that the manager was made with: what becomes of
-- the manager's cloud.
unfoldable pub serve : Call → Ccm → Proc Ccm
serve (get service) m e w =
    let (_, w') = get_load_balancer m.cloud m.cluster_name service e w in (m, w')
serve (ensure service nodes) m e w =
    let ((_, cloud), w') = ensure_load_balancer m.cloud m.cluster_name service nodes e w in
    (record m { cloud = cloud }, w')
serve (update service nodes) m e w =
    let (_, w') = update_load_balancer m.cloud m.cluster_name service nodes e w in (m, w')
serve (delete service) m e w =
    let (_, w') = ensure_load_balancer_deleted m.cloud m.cluster_name service e w in (m, w')
serve (exists node) m e w = let (_, w') = instance_exists m.cloud node e w in (m, w')
serve (shutdown node) m e w = let (_, w') = instance_shutdown m.cloud node e w in (m, w')
serve (metadata node) m e w = let (_, w') = instance_metadata m.cloud node e w in (m, w')

pub record System : Type 0 where
  pub clusters : Clusters
  pub world : World

abbrev pub system : Clusters × World → System
system (clusters, world) = record { clusters = clusters; world = world }

-- A call of a manager, a round of `Run`, and `cleanup`.
pub data Step (e : Env) (s : System) : System → Type 0 where
  serves :
      (c : String) (m : Ccm) (call : Call)
      → Dict.lookup c s.clusters ≡ some m
      → Step e s
          (system (Dict.insert c (serve call m e s.world).0 s.clusters, (serve call m e s.world).1))
  rounds : Step e s (system ((round s.clusters e s.world).0.1, (round s.clusters e s.world).1))
  cleans : Step e s (system (cleanup s.clusters e s.world))

-- `New` makes a controller without clusters, which starts in the world that `Main` leaves.
pub data Reach (e : Env) (w : World) : System → Type 0 where
  start : Reach e w (system ([], w))
  later : {s t : System} → Reach e w s → Step e s t → Reach e w t
