-- ===== src/Controller/System/Mode.antt =====
-- The tunnel managers of the clouds, and the connectivity of the load balancers, through the calls
-- of a manager.
use cloud_provider_kind.Base.{
  String, string_eq, Bool, Bool-cases, true, false, ◌≡◌, refl, ◌∙◌, some, none, List, inl, inr,
  Option-cases,
}
use cloud_provider_kind.Base.Dict
use cloud_provider_kind.Api.{Service, Node}
use cloud_provider_kind.Config.{Config, Connectivity, is_tunnel}
use cloud_provider_kind.Controller.Cancel.Keeps.{ensure_load_balancer_deleted-Keeps}
use cloud_provider_kind.Controller.Connect.{Ccm}
use cloud_provider_kind.Controller.Rounds.{Clusters}
use cloud_provider_kind.Controller.System.{
  Call, get, ensure, update, delete, exists, shutdown, metadata, serve,
}
use cloud_provider_kind.Controller.System.Client.{IsMode}
use cloud_provider_kind.LoadBalancer.Server
use cloud_provider_kind.LoadBalancer.Server.{
  Server, ensure_tunnels, after_tunnels, after_container, new_server,
}
use cloud_provider_kind.LoadBalancer.Server.Keeps.{update_load_balancer-Keeps}
use cloud_provider_kind.LoadBalancer.Server.Keeps.Ensuring.{
  get_load_balancer-Keeps, ensure_load_balancer-Keeps,
}
use cloud_provider_kind.Provider.{
  Cloud, get_load_balancer, ensure_load_balancer, update_load_balancer, find_node_by_name,
  instance_exists, instance_shutdown, instance_metadata, metadata_of,
}
use cloud_provider_kind.World.{Result, ok, err, Env, World, Keeps, >>=-Keeps, pure-Keeps}

abbrev pub has_tunnel_manager : Server → Bool
has_tunnel_manager s = elim s.tunnel_manager [ none ↦ false | some ts ↦ true ]

-- A cloud has a tunnel manager exactly in the mode with tunnels.
abbrev pub AllInMode : Connectivity → Clusters → Type 0
AllInMode k clusters =
    (c : String) (m : Ccm)
    → Dict.lookup c clusters ≡ some m
    → has_tunnel_manager m.cloud.lb_controller ≡ is_tunnel k

pub new_server_manager :
    (c : Config) → has_tunnel_manager (new_server c) ≡ is_tunnel c.load_balancer_connectivity
unfolding new_server
new_server_manager c = elim (Bool-cases (is_tunnel c.load_balancer_connectivity)) [
  | inl tunnels ↦ rw tunnels refl
  | inr other ↦ rw other refl
]

module _ (e : Env) where
  ensure_tunnels_manager :
      (s : Server) (name : String) (w : World)
      → has_tunnel_manager (ensure_tunnels s name e w).0.1 ≡ has_tunnel_manager s
  unfolding ensure_tunnels
  ensure_tunnels_manager s name w = elim (Option-cases s.tunnel_manager) [
    | inl without ↦ rw (without, ensure_tunnels) (rw without refl)
    | inr (ts, has) ↦ rw (has, ensure_tunnels) refl
  ]

  module _ (cluster_name : String) (service : Service) where
    after_tunnels_manager :
        (s : Server) (r : Result (Unit {0})) (w : World)
        → has_tunnel_manager (after_tunnels cluster_name service s r e w).0.1 ≡ has_tunnel_manager s
    unfolding after_tunnels
    after_tunnels_manager s (err x) w = refl
    after_tunnels_manager s (ok _) w = refl

    after_container_manager :
        (s : Server) (r : Result (Unit {0})) (w : World)
        → has_tunnel_manager (after_container cluster_name service s r e w).0.1
          ≡ has_tunnel_manager s
    unfolding after_container
    after_container_manager s (err x) w = refl
    after_container_manager s (ok _) w = after_tunnels_manager _ _ _ ∙ ensure_tunnels_manager s _ w

    ensure_load_balancer_manager :
        (s : Server) (nodes : List Node) (w : World)
        → has_tunnel_manager (Server.ensure_load_balancer s cluster_name service nodes e w).0.1
          ≡ has_tunnel_manager s
    unfolding Server.ensure_load_balancer
    ensure_load_balancer_manager s nodes w = after_container_manager s _ _

  module _ (k : Connectivity) where
    pub serve_manager :
        (call : Call) (m : Ccm) (w : World)
        → has_tunnel_manager (serve call m e w).0.cloud.lb_controller
          ≡ has_tunnel_manager m.cloud.lb_controller
    unfolding serve ensure_load_balancer
    serve_manager (get service) m w = refl
    serve_manager (ensure service nodes) m w =
        ensure_load_balancer_manager m.cluster_name service m.cloud.lb_controller nodes w
    serve_manager (update service nodes) m w = refl
    serve_manager (delete service) m w = refl
    serve_manager (exists node) m w = refl
    serve_manager (shutdown node) m w = refl
    serve_manager (metadata node) m w = refl

    find_node_by_name-Keeps :
        (cloud : Cloud) (name : String) → Keeps e (IsMode k) (find_node_by_name cloud name)
    unfolding find_node_by_name
    find_node_by_name-Keeps cloud name = record { keep = λ w h. h }

    instance_metadata-Keeps :
        (cloud : Cloud) (name : String) → Keeps e (IsMode k) (instance_metadata cloud name)
    unfolding instance_metadata
    instance_metadata-Keeps cloud name =
        >>=-Keeps e (IsMode k) (find_node_by_name cloud name) _ (find_node_by_name-Keeps cloud name)
          (λ n.
            >>=-Keeps e (IsMode k) {A = String × String} (λ e w. (n.ip, w))
              (λ both e w. (ok (metadata_of cloud n both), w))
              (pure-Keeps e (IsMode k) (λ e w. n.ip))
              (λ both. pure-Keeps e (IsMode k) (λ e w. ok (metadata_of cloud n both))))

    pub serve-IsMode :
        (call : Call) (m : Ccm) (w : World) → IsMode k w → IsMode k (serve call m e w).1
    unfolding serve ensure_load_balancer get_load_balancer update_load_balancer instance_exists
        instance_shutdown
    serve-IsMode (get service) m w h =
        (get_load_balancer-Keeps e (IsMode k) (λ a w h. h) m.cluster_name service).keep w h
    serve-IsMode (ensure service nodes) m w h =
        (ensure_load_balancer-Keeps e (IsMode k) (λ a w h. h) m.cluster_name service
            m.cloud.lb_controller nodes).keep
          w h
    serve-IsMode (update service nodes) m w h =
        (update_load_balancer-Keeps e (IsMode k) (λ a w h. h) m.cluster_name service nodes).keep w h
    serve-IsMode (delete service) m w h =
        (ensure_load_balancer_deleted-Keeps e (IsMode k) (λ a w _ h. h) m.cloud m.cluster_name
            service).keep
          w h
    serve-IsMode (exists node) m w h = (find_node_by_name-Keeps m.cloud node).keep w h
    serve-IsMode (shutdown node) m w h = (find_node_by_name-Keeps m.cloud node).keep w h
    serve-IsMode (metadata node) m w h = (instance_metadata-Keeps m.cloud node).keep w h
