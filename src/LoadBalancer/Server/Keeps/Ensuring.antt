-- ===== src/LoadBalancer/Server/Keeps/Ensuring.antt =====
-- The part of `EnsureLoadBalancer` behind the container, and the whole method.
use cloud_provider_kind.Base.{String, List, [], ◌∷◌, inl, inr, Option-cases}
use cloud_provider_kind.Base.Dict.{Dict}
use cloud_provider_kind.Api.{Service, Node}
use cloud_provider_kind.Container.{ips, port_maps}
use cloud_provider_kind.Container.Inspect.Keeps.{ips-Keeps, port_maps-Keeps}
use cloud_provider_kind.LoadBalancer.Names.{load_balancer_name}
use cloud_provider_kind.LoadBalancer.Server.{
  Server, get_load_balancer, ensured, ensure_tunnels, ensure_status, after_tunnels, after_container,
  ensure_load_balancer,
}
use cloud_provider_kind.LoadBalancer.Server.Keeps.{ensure_container-Keeps}
use cloud_provider_kind.LoadBalancer.Tunnel.{
  Tunnels, start, new_tunnel, local_address, port_at, start_all, prepare, setup_tunnels,
  add_ip_to_local_interface,
}
use cloud_provider_kind.LoadBalancer.Tunnel.Busy.{start-world}
use cloud_provider_kind.World.{
  Result, ok, err, Action, listen, output_lines, Env, World, Result-cases, Keeps, >>=-Keeps,
  pure-Keeps,
}

module _ (e : Env) (P : World → Type 0)
    (law : (a : Action) (w : World) → P w → P (record w { trace = a ∷ w.trace })) where
  prepare-Keeps : (name : String) → Keeps e P (prepare name)
  unfolding prepare add_ip_to_local_interface
  prepare-Keeps name =
      >>=-Keeps e P (port_maps name) _ (port_maps-Keeps e P (λ argv. law (output_lines argv)) name)
        (λ portmaps.
          >>=-Keeps e P (ips name) _ (ips-Keeps e P (λ argv. law (output_lines argv)) name) (λ both.
            >>=-Keeps e P (add_ip_to_local_interface both.0) (λ _ e w. (ok (portmaps, both.0), w))
              (record { keep = λ w h. law _ w h })
              (λ _. pure-Keeps e P (λ e w. ok (portmaps, both.0)))))

  start_all_keep :
      (name ipv4 : String) (portmaps : Dict String) (ports : List String) (ts : Tunnels) (w : World)
      → P w
      → P (start_all name ipv4 portmaps ports ts e w).1
  unfolding start_all start
  start_all_keep name ipv4 portmaps [] ts w h = h
  start_all_keep name ipv4 portmaps (p ∷ ports) ts w h =
      let t = new_tunnel ipv4 p "localhost" (port_at p portmaps) in
      let w1 = (start t e w).1 in
      let heard : P w1 = rw (start-world t e w) (law (listen (local_address t)) w h) in
      elim (Result-cases (e.answer w.trace (listen (local_address t)))) [
        | inr (x, failed) ↦ rw (failed, start_all) heard
        | inl (ln, started) ↦
            rw (started, start_all) (start_all_keep name ipv4 portmaps ports _ w1 heard)
      ]

  setup_tunnels-Keeps : (name : String) (ts : Tunnels) → Keeps e P (setup_tunnels name ts)
  unfolding setup_tunnels
  setup_tunnels-Keeps name ts = record {
    keep = λ w h. elim (Result-cases (prepare name e w).0) [
      | inr (x, failed) ↦ rw (failed, setup_tunnels) ((prepare-Keeps name).keep w h)
      | inl ((portmaps, ipv4), done) ↦
          rw (done, setup_tunnels)
            (start_all_keep name ipv4 portmaps _ ts _ ((prepare-Keeps name).keep w h))
    ];
  }

  ensure_tunnels-Keeps : (s : Server) (name : String) → Keeps e P (ensure_tunnels s name)
  unfolding ensure_tunnels
  ensure_tunnels-Keeps s name = record {
    keep = λ w h. elim (Option-cases s.tunnel_manager) [
      | inl without ↦ rw (without, ensure_tunnels) h
      | inr (ts, has) ↦ rw (has, ensure_tunnels) ((setup_tunnels-Keeps name ts).keep w h)
    ];
  }

  module _ (cluster_name : String) (service : Service) where
    abbrev name : String
    name = load_balancer_name cluster_name service

    pub get_load_balancer-Keeps : Keeps e P (get_load_balancer cluster_name service)
    unfolding get_load_balancer
    get_load_balancer-Keeps = record {
      keep = (ips-Keeps e P (λ argv. law (output_lines argv)) name).keep;
    }

    ensure_status-Keeps : Keeps e P (ensure_status cluster_name service)
    unfolding ensure_status
    ensure_status-Keeps =
        >>=-Keeps e P (get_load_balancer cluster_name service) (λ l e w. (ensured name l, w))
          get_load_balancer-Keeps (λ l. pure-Keeps e P (λ e w. ensured name l))

    after_tunnels-Keeps :
        (s : Server) (r : Result (Unit {0})) → Keeps e P (after_tunnels cluster_name service s r)
    unfolding after_tunnels
    after_tunnels-Keeps s (err x) = record { keep = λ w h. h }
    after_tunnels-Keeps s (ok tt) = record { keep = λ w h. ensure_status-Keeps.keep w h }

    after_container-Keeps :
        (s : Server) (r : Result (Unit {0})) → Keeps e P (after_container cluster_name service s r)
    unfolding after_container
    after_container-Keeps s (err x) = record { keep = λ w h. h }
    after_container-Keeps s (ok tt) = record {
      keep = λ w h. (after_tunnels-Keeps _ _).keep _ ((ensure_tunnels-Keeps s name).keep w h);
    }

    pub ensure_load_balancer-Keeps :
        (s : Server) (nodes : List Node)
        → Keeps e P (ensure_load_balancer s cluster_name service nodes)
    unfolding ensure_load_balancer
    ensure_load_balancer-Keeps s nodes = record {
      keep = λ w h.
          (after_container-Keeps s _).keep _
            ((ensure_container-Keeps e P law s cluster_name service nodes).keep w h);
    }
