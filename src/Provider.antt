-- ===== src/Provider.antt =====
-- pkg/provider: the cloud of one kind cluster.
pub mod Instances
use cloud_provider_kind.Base.{
  String, ◌<>◌, ◌==◌, string_eq, if◌then◌else◌, Bool, true, false, not, Option, none, some, List,
  [], ◌∷◌, ◌++◌,
}
use cloud_provider_kind.Api.{
  NodeAddress, Service, Node, LoadBalancerStatus, node_host_name, node_internal_ip,
}
use cloud_provider_kind.Config.{Config, provider_name}
use cloud_provider_kind.LoadBalancer.Server
use cloud_provider_kind.LoadBalancer.Server.{Server, Lookup}
use cloud_provider_kind.World.{
  Err, errorf, err_node_not_found, is_node_not_found, Result, ok, err, KindNode, list_clusters,
  list_nodes, Proc, perform, pure, fail, lift, ◌>>=◌,
}

pub record Cloud : Type 0 where
  pub cluster_name : String
  pub lb_controller : Server

-- `New`
unfoldable pub new_cloud : String → Config → Cloud
unfolding Server.new_server
new_cloud cluster_name c = record {
  cluster_name = cluster_name;
  lb_controller = Server.new_server c;
}

-- `ProviderName`
abbrev pub cloud_provider_name : String
cloud_provider_name = provider_name

-- `HasClusterID`
abbrev pub has_cluster_id : Cloud → Bool
has_cluster_id c = not (c.cluster_name == "")

-- What the accessors of the cloud return: an interface, which may be nil and which only the cloud
-- itself implements here, and whether it is supported.
abbrev pub Offer : Type 0
Offer = Option Cloud × Bool

-- `Clusters`
abbrev pub clusters : Cloud → Offer
clusters c = (some c, true)

-- `LoadBalancer`
abbrev pub load_balancer : Cloud → Offer
load_balancer c = (some c, true)

-- `Instances`
abbrev pub instances : Cloud → Offer
instances c = (none, false)

-- `Zones`
abbrev pub zones : Cloud → Offer
zones c = (none, false)

-- `Routes`
abbrev pub routes : Cloud → Offer
routes c = (none, false)

-- `InstancesV2`
abbrev pub instances_v2 : Cloud → Offer
instances_v2 c = (some c, true)

unfoldable pub get_load_balancer : Cloud → String → Service → Proc (Result Lookup)
get_load_balancer c cluster_name service = Server.get_load_balancer cluster_name service

unfoldable pub get_load_balancer_name : Cloud → String → Service → String
get_load_balancer_name c cluster_name service = Server.get_load_balancer_name cluster_name service

unfoldable pub ensure_load_balancer :
    Cloud → String → Service → List Node → Proc (Result LoadBalancerStatus × Cloud)
ensure_load_balancer c cluster_name service nodes e w =
    let ((r, s), w') = Server.ensure_load_balancer c.lb_controller cluster_name service nodes e w in
    ((r, record c { lb_controller = s }), w')

unfoldable pub update_load_balancer :
    Cloud → String → Service → List Node → Proc (Result (Unit {0}))
update_load_balancer c cluster_name service nodes =
    Server.update_load_balancer cluster_name service nodes

unfoldable pub ensure_load_balancer_deleted : Cloud → String → Service → Proc (Result (Unit {0}))
ensure_load_balancer_deleted c cluster_name service =
    Server.ensure_load_balancer_deleted c.lb_controller cluster_name service

-- `ListClusters`
unfoldable pub list_cluster_names : Proc (Result (List String))
list_cluster_names e w =
    let ((names, error), w') = perform list_clusters e w in
    (elim error [ none ↦ ok names | some x ↦ err x ], w')

-- The loop of `Master`.
unfoldable pub master_of : String → List String → Result String
master_of cluster_name [] = err (errorf ("cluster " <> (cluster_name <> " node found")))
master_of cluster_name (cluster ∷ clusters) =
    if cluster == cluster_name
    then ok (cluster_name <> "-control-plane")
    else master_of cluster_name clusters

unfoldable pub master : String → Proc (Result String)
unfolding list_cluster_names master_of
master cluster_name = do clusters ← list_cluster_names; λ e w. (master_of cluster_name clusters, w)

-- The loop of `findNodeByName`.
unfoldable pub find_node : String → String → List KindNode → Result KindNode
find_node cluster_name name [] =
    err (errorf ("node with name " <> (name <> (" does not exist on cluster " <> cluster_name))))
find_node cluster_name name (n ∷ nodes) =
    if n.name == name then ok n else find_node cluster_name name nodes

-- `findNodeByName`
unfoldable pub node_of : String → String → Result (List KindNode) → Result KindNode
unfolding find_node
node_of cluster_name name (ok nodes) = find_node cluster_name name nodes
node_of cluster_name name (err x) = err (errorf "no nodes founds")

unfoldable pub find_node_by_name : Cloud → String → Proc (Result KindNode)
unfolding node_of
find_node_by_name c name e w =
    let (nodes, w') = perform (list_nodes c.cluster_name) e w in
    (node_of c.cluster_name name nodes, w')

unfoldable pub exists_of : Result KindNode → Result Bool
exists_of (ok n) = ok true
exists_of (err x) = if is_node_not_found x then ok false else err x

unfoldable pub instance_exists : Cloud → String → Proc (Result Bool)
unfolding exists_of
instance_exists c node_name e w =
    let (n, w') = find_node_by_name c node_name e w in (exists_of n, w')

unfoldable pub shutdown_of : Result KindNode → Result Bool
shutdown_of (ok n) = ok false
shutdown_of (err x) = if is_node_not_found x then ok true else err x

unfoldable pub instance_shutdown : Cloud → String → Proc (Result Bool)
unfolding shutdown_of
instance_shutdown c node_name e w =
    let (n, w') = find_node_by_name c node_name e w in (shutdown_of n, w')

pub record InstanceMetadata : Type 0 where
  pub provider_id : String
  pub instance_type : String
  pub node_addresses : List NodeAddress
  pub zone : String
  pub region : String

internal : String → List NodeAddress
internal ip = if not (ip == "") then record { kind = node_internal_ip; address = ip } ∷ [] else []

unfoldable pub metadata_of : Cloud → KindNode → String × String → InstanceMetadata
unfolding internal
metadata_of c n (ipv4, ipv6) = record {
  provider_id = "kind://" <> (c.cluster_name <> ("/kind/" <> n.name));
  instance_type = "kind-node";
  node_addresses =
      record { kind = node_host_name; address = n.name } ∷ (internal ipv4 ++ internal ipv6);
  zone = "";
  region = "";
}

unfoldable pub instance_metadata : Cloud → String → Proc (Result InstanceMetadata)
unfolding metadata_of find_node_by_name
instance_metadata c node_name = do
  n ← find_node_by_name c node_name
  both ← λ e w. (n.ip, w)
  pure (metadata_of c n both)
