-- ===== src/LoadBalancer/Server/Keeps.antt =====
-- What the methods of the server leave true, if every call leaves it true.
pub mod Ensuring
use cloud_provider_kind.Base.{
  String, ℕ, if◌then◌else◌, Bool, true, false, Option, some, none, List, [], ◌∷◌, ◌≡◌, refl, inl,
  inr, Option-cases,
}
use cloud_provider_kind.Base.Dict
use cloud_provider_kind.Base.Dict.{Dict}
use cloud_provider_kind.Api.{Service, Node}
use cloud_provider_kind.Container
use cloud_provider_kind.Container.{ips, port_maps, exec}
use cloud_provider_kind.Container.Inspect.Keeps.{ips-Keeps, port_maps-Keeps}
use cloud_provider_kind.LoadBalancer.Names.{load_balancer_name}
use cloud_provider_kind.LoadBalancer.Proxy.Config.{ProxyConfigData, config_data}
use cloud_provider_kind.LoadBalancer.Proxy.Template.{Template, lds, cds}
use cloud_provider_kind.LoadBalancer.Proxy.Update.{
  proxy_image, proxy_config_path_lds, proxy_config_path_cds, write_command, write_config,
  move_configs, rendered, generated, net, wait_load_balancer_ready, update_service,
  proxy_update_load_balancer,
}
use cloud_provider_kind.LoadBalancer.Proxy.Template.{proxy_config}
use cloud_provider_kind.LoadBalancer.Proxy.Update.Waits.{wait_load_balancer_ready-Keeps}
use cloud_provider_kind.LoadBalancer.Server.{
  Server, Lookup, get_load_balancer, lookup_of, remove_stale, create_missing, update_load_balancer,
  ensured, ensure_container, ensure_tunnels, ensure_status, after_tunnels, after_container,
  ensure_load_balancer,
}
use cloud_provider_kind.LoadBalancer.Server.Create.{create_load_balancer}
use cloud_provider_kind.LoadBalancer.Tunnel.{
  Tunnels, start, new_tunnel, local_address, port_at, put_tunnel, start_all, prepare, setup_tunnels,
  add_ip_to_local_interface,
}
use cloud_provider_kind.World.{
  Err, Result, ok, err, Output, Action, listen, Proc, Env, World, lift, pure, check, range,
  Result-cases, Keeps, >>=-Keeps, pure-Keeps,
}

module _ (e : Env) (P : World → Type 0)
    (law : (a : Action) (w : World) → P w → P (record w { trace = a ∷ w.trace })) where
  pub if-Keeps {ℓ} :
      {A : Type ℓ} (b : Bool) (m k : Proc A)
      → Keeps e P m
      → Keeps e P k
      → Keeps e P (if b then m else k)
  if-Keeps true m k first second = first
  if-Keeps false m k first second = second

  is_running-Keeps : (name : String) → Keeps e P (Container.is_running name)
  unfolding Container.is_running
  is_running-Keeps name = record { keep = λ w h. law _ w h }

  exist-Keeps : (name : String) → Keeps e P (Container.exist name)
  unfolding Container.exist
  exist-Keeps name = record { keep = λ w h. law _ w h }

  delete-Keeps : (name : String) → Keeps e P (Container.delete name)
  unfolding Container.delete
  delete-Keeps name = record { keep = λ w h. law _ w h }

  remove_stale-Keeps : (name : String) → Keeps e P (remove_stale name)
  unfolding remove_stale
  remove_stale-Keeps name =
      >>=-Keeps e P (Container.is_running name) _ (is_running-Keeps name) (λ running.
        >>=-Keeps e P (if running then pure false else Container.exist name)
          (λ stale. if stale then Container.delete name else pure tt)
          (if-Keeps running _ _ (pure-Keeps e P (λ e w. ok false)) (exist-Keeps name))
          (λ stale. if-Keeps stale _ _ (delete-Keeps name) (pure-Keeps e P (λ e w. ok tt))))

  create_load_balancer-Keeps :
      (tunnels : Option Tunnels) (cluster_name : String) (service : Service) (image : String)
      → Keeps e P (create_load_balancer tunnels cluster_name service image)
  unfolding create_load_balancer Container.create
  create_load_balancer-Keeps tunnels cluster_name service image = record {
    keep = λ w h. law _ _ (law _ w h);
  }

  create_missing-Keeps :
      (s : Server) (cluster_name : String) (service : Service)
      → Keeps e P (create_missing s cluster_name service)
  unfolding create_missing
  create_missing-Keeps s cluster_name service =
      >>=-Keeps e P (Container.exist (load_balancer_name cluster_name service))
        (λ there.
          if there
          then pure tt
          else create_load_balancer s.tunnel_manager cluster_name service proxy_image)
        (exist-Keeps _)
        (λ there.
          if-Keeps there _ _ (pure-Keeps e P (λ e w. ok tt))
            (create_load_balancer-Keeps s.tunnel_manager cluster_name service proxy_image))

  exec-Keeps :
      (name : String) (argv : List String) (stdin : Option String)
      → Keeps e P (exec name argv stdin)
  unfolding exec
  exec-Keeps name argv stdin = record { keep = λ w h. law _ w h }

  write_config-Keeps : (name path text : String) → Keeps e P (write_config name path text)
  unfolding write_config
  write_config-Keeps name path text =
      >>=-Keeps e P (exec name (write_command path) (some text)) _ (exec-Keeps _ _ _) (λ out.
        >>=-Keeps e P {A = Unit {0}} (λ e w. (check out.error, w)) (λ _. pure out)
          (pure-Keeps e P (λ e w. check out.error)) (λ _. pure-Keeps e P (λ e w. ok out)))

  move_configs-Keeps :
      (name : String) (first second : Output) → Keeps e P (move_configs name first second)
  unfolding move_configs exec
  move_configs-Keeps name first second = record { keep = λ w h. law _ w h }

  rendered-Keeps : (t : Template) (d : ProxyConfigData) → Keeps e P (rendered t d)
  rendered-Keeps t d = pure-Keeps e P (λ e w. generated (proxy_config t d))

  update_service-Keeps :
      (cluster_name : String) (service : Service) (nodes : List Node)
      → Keeps e P (update_service cluster_name service nodes)
  unfolding update_service
  update_service-Keeps cluster_name service nodes =
      let name = load_balancer_name cluster_name service in
      >>=-Keeps e P (lift net) _ (record { keep = λ w h. h })
        (λ n.
          let d = config_data n service nodes in
          >>=-Keeps e P (rendered lds d) _ (rendered-Keeps lds d) (λ l.
            >>=-Keeps e P (write_config name proxy_config_path_lds l) _
              (write_config-Keeps name proxy_config_path_lds l)
              (λ first. >>=-Keeps e P (rendered cds d) _ (rendered-Keeps cds d) (λ c.
                >>=-Keeps e P (write_config name proxy_config_path_cds c) _
                  (write_config-Keeps name proxy_config_path_cds c)
                  (λ second.
                    >>=-Keeps e P (move_configs name first second)
                      (λ _. wait_load_balancer_ready name 30) (move_configs-Keeps name first second)
                      (λ _. wait_load_balancer_ready-Keeps e P (λ a w _. law a w) name 30))))))

  pub update_load_balancer-Keeps :
      (cluster_name : String) (service : Service) (nodes : List Node)
      → Keeps e P (update_load_balancer cluster_name service nodes)
  unfolding update_load_balancer proxy_update_load_balancer
  update_load_balancer-Keeps cluster_name service nodes =
      update_service-Keeps cluster_name service nodes

  pub ensure_container-Keeps :
      (s : Server) (cluster_name : String) (service : Service) (nodes : List Node)
      → Keeps e P (ensure_container s cluster_name service nodes)
  unfolding ensure_container
  ensure_container-Keeps s cluster_name service nodes =
      >>=-Keeps e P (remove_stale (load_balancer_name cluster_name service)) _
        (remove_stale-Keeps _)
        (λ _.
          >>=-Keeps e P (create_missing s cluster_name service)
            (λ _. update_load_balancer cluster_name service nodes)
            (create_missing-Keeps s cluster_name service)
            (λ _. update_load_balancer-Keeps cluster_name service nodes))
