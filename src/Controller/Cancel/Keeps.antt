-- ===== src/Controller/Cancel/Keeps.antt =====
-- What `cancelFn` leaves true, whatever it calls.
use cloud_provider_kind.Base.{
  String, ◌<>◌, if◌then◌else◌, Bool, true, false, Option, some, none, List, [], ◌∷◌, inl, inr, ◌≡◌,
  refl, Option-cases,
}
use cloud_provider_kind.Base.Dict
use cloud_provider_kind.Base.Dict.{Dict}
use cloud_provider_kind.Api.{Service}
use cloud_provider_kind.Config.{node_ccm_label_key, load_balancer_name_label_key}
use cloud_provider_kind.Container
use cloud_provider_kind.Container.{list_by_label, get_label_value}
use cloud_provider_kind.Controller.Connect.{Ccm}
use cloud_provider_kind.Controller.Cancel.{
  delete_service, delete_labelled, delete_container, delete_containers, delete_with, cancel_fn,
}
use cloud_provider_kind.LoadBalancer.Names.{
  load_balancer_name, service_from_load_balancer_simple_name,
}
use cloud_provider_kind.LoadBalancer.Server
use cloud_provider_kind.LoadBalancer.Server.{
  Server, log_file, dump, dump_logs, remove_server_tunnels, joined,
}
use cloud_provider_kind.LoadBalancer.Server.Deleted.{dump_logs-ok}
use cloud_provider_kind.LoadBalancer.Server.Running.{rm_call}
use cloud_provider_kind.LoadBalancer.Tunnel.{
  Tunnel, Tunnels, stop, stop_all, remove_ip_from_local_interface, remove_tunnels,
}
use cloud_provider_kind.Provider.{Cloud, load_balancer, ensure_load_balancer_deleted}
use cloud_provider_kind.World.{
  Err, ok, Action, Env, World, config, lift, pure, cancel, perform, create_file, Result-cases,
  Keeps, >>=-Keeps, pure-Keeps,
}
use cloud_provider_kind.Controller.Cancel.Calls.{
  IsCancelling, cancels, lists, labels, closes, releases, creates, copies_logs, removes,
}

module _ (e : Env) (P : World → Type 0)
    (law : (a : Action) (w : World)
      → IsCancelling e a
      → P w
      → P (record w { trace = a ∷ w.trace })) where
  stop-Keeps : (t : Tunnel) → Keeps e P (stop t)
  unfolding stop
  stop-Keeps t = record {
    keep = λ w h. elim (Option-cases t.listener) [
      | inl idle ↦ rw (idle, stop) h
      | inr (ln, listens) ↦ rw (listens, stop) (law _ w (closes ln) h)
    ];
  }

  pub stop_all_keep :
      (tuns : Dict Tunnel) (ports : List String) (ip : String) (w : World)
      → P w
      → P (stop_all tuns ports ip e w).1
  unfolding stop_all
  stop_all_keep tuns [] ip w h = h
  stop_all_keep tuns (p ∷ ports) ip w h = elim (Option-cases (Dict.lookup p tuns)) [
    | inl absent ↦ rw (absent, stop_all) (stop_all_keep tuns ports ip w h)
    | inr (t, there) ↦ rw (there, stop_all) (stop_all_keep tuns ports _ _ ((stop-Keeps t).keep w h))
  ]

  remove_tunnels-Keeps : (name : String) (ts : Tunnels) → Keeps e P (remove_tunnels name ts)
  unfolding remove_tunnels remove_ip_from_local_interface
  remove_tunnels-Keeps name ts = record {
    keep = λ w h. elim (Option-cases (Dict.lookup name ts)) [
      | inl absent ↦ rw (absent, remove_tunnels) h
      | inr (tuns, there) ↦
          rw (there, remove_tunnels) (law _ _ (releases _) (stop_all_keep tuns _ "" w h))
    ];
  }

  remove_server_tunnels-Keeps :
      (s : Server) (name : String) → Keeps e P (remove_server_tunnels s name)
  unfolding remove_server_tunnels
  remove_server_tunnels-Keeps s name = record {
    keep = λ w h. elim (Option-cases s.tunnel_manager) [
      | inl without ↦ rw (without, remove_server_tunnels) h
      | inr (ts, has) ↦ rw (has, remove_server_tunnels) ((remove_tunnels-Keeps name ts).keep w h)
    ];
  }

  log_dump-Keeps : (name file : String) → Keeps e P (Container.log_dump name file)
  unfolding Container.log_dump Container.logs
  log_dump-Keeps name file = record {
    keep = λ w h. elim (Option-cases (e.answer w.trace (create_file file))) [
      | inl made ↦ rw made (law _ _ (copies_logs name file) (law _ w (creates file) h))
      | inr (x, failed) ↦ rw failed (law _ w (creates file) h)
    ];
  }

  dump-Keeps : (name file : String) → Keeps e P (dump name file)
  unfolding dump
  dump-Keeps name file = record { keep = (log_dump-Keeps name file).keep }

  dump_if-Keeps :
      (b : Bool) (name file : String) → Keeps e P (if b then dump name file else pure tt)
  dump_if-Keeps true name file = dump-Keeps name file
  dump_if-Keeps false name file = pure-Keeps e P (λ e w. ok tt)

  pub dump_logs-Keeps : (name : String) (service : Service) → Keeps e P (dump_logs name service)
  unfolding dump_logs
  dump_logs-Keeps name service =
      >>=-Keeps e P (lift config)
        (λ c. if c.enable_log_dump then dump name (log_file c service) else pure tt)
        (record { keep = λ w h. h })
        (λ c. dump_if-Keeps c.enable_log_dump name (log_file c service))

  delete-Keeps :
      (cluster_name : String) (service : Service)
      → Keeps e P (Container.delete (load_balancer_name cluster_name service))
  unfolding Container.delete
  delete-Keeps cluster_name service = record {
    keep = λ w h. law _ w (removes cluster_name service) h;
  }

  pub ensure_load_balancer_deleted-Keeps :
      (cloud : Cloud) (cluster_name : String) (service : Service)
      → Keeps e P (ensure_load_balancer_deleted cloud cluster_name service)
  unfolding ensure_load_balancer_deleted Server.ensure_load_balancer_deleted
  ensure_load_balancer_deleted-Keeps cloud cluster_name service =
      let name = load_balancer_name cluster_name service in
      >>=-Keeps e P (lift (remove_server_tunnels cloud.lb_controller name)) _
        (remove_server_tunnels-lifted cloud.lb_controller name)
        (λ r1. >>=-Keeps e P (dump_logs name service) _ (dump_logs-Keeps name service) (λ _.
          >>=-Keeps e P (lift (Container.delete name)) (λ r2 e w. (joined r1 r2, w))
            (record { keep = (delete-Keeps cluster_name service).keep })
            (λ r2. pure-Keeps e P (λ e w. joined r1 r2))))
    where
      remove_server_tunnels-lifted :
          (s : Server) (name : String) → Keeps e P (lift (remove_server_tunnels s name))
      remove_server_tunnels-lifted s name = record {
        keep = (remove_server_tunnels-Keeps s name).keep;
      }

  -- The removal is the last call, in a world that `P` holds in.
  pub deleted_last :
      (cloud : Cloud) (cluster_name : String) (service : Service) (w : World)
      → P w
      → (v : World) × P v
        × ((ensure_load_balancer_deleted cloud cluster_name service e w).1.trace
            ≡ rm_call e.runtime (load_balancer_name cluster_name service) ∷ v.trace)
  unfolding ensure_load_balancer_deleted Server.ensure_load_balancer_deleted Container.delete
  deleted_last cloud cluster_name service w h =
      let name = load_balancer_name cluster_name service in
      let w1 = (remove_server_tunnels cloud.lb_controller name e w).1 in
      (
        (dump_logs name service e w1).1,
        (dump_logs-Keeps name service).keep w1
            ((remove_server_tunnels-Keeps cloud.lb_controller name).keep w h),
        rw (dump_logs-ok name service e w1) refl,
      )

  delete_service-Keeps :
      (cloud : Cloud) (cluster_name : String) (service : Option Service)
      → Keeps e P (delete_service cloud (cluster_name, service))
  unfolding delete_service
  delete_service-Keeps cloud cluster_name none = pure-Keeps e P (λ e w. ok tt)
  delete_service-Keeps cloud cluster_name (some fake) = record {
    keep = (ensure_load_balancer_deleted-Keeps cloud cluster_name fake).keep;
  }

  pub delete_container-Keeps :
      (cloud : Cloud) (name : String) → Keeps e P (delete_container cloud name)
  unfolding delete_container delete_labelled get_label_value
  delete_container-Keeps cloud name = record {
    keep = λ w h. elim (Result-cases (get_label_value name load_balancer_name_label_key e w).0) [
      | inr (x, failed) ↦
          rw (failed, delete_container) (law _ w (labels name load_balancer_name_label_key) h)
      | inl (label, found) ↦
          let named = service_from_load_balancer_simple_name label in
          rw (found, delete_container)
            ((delete_service-Keeps cloud named.0 named.1).keep _
              (law _ w (labels name load_balancer_name_label_key) h))
    ];
  }

  pub delete_containers-Keeps :
      (cloud : Cloud) (names : List String) → Keeps e P (delete_containers cloud names)
  unfolding delete_containers
  delete_containers-Keeps cloud [] = pure-Keeps e P (λ e w. ok tt)
  delete_containers-Keeps cloud (name ∷ names) =
      >>=-Keeps e P (delete_container cloud name) (λ _. delete_containers cloud names)
        (delete_container-Keeps cloud name) (λ _. delete_containers-Keeps cloud names)

  delete_listed-Keeps :
      (m : Ccm) (listed : List String × Option Err)
      → Keeps e P
          (elim listed.1 [ some x ↦ pure tt | none ↦ delete_with (load_balancer m.cloud) listed.0 ])
  unfolding delete_with
  delete_listed-Keeps m (names, some x) = pure-Keeps e P (λ e w. ok tt)
  delete_listed-Keeps m (names, none) = delete_containers-Keeps m.cloud names

  list_by_label-Keeps : (key value : String) → Keeps e P (list_by_label (key <> ("=" <> value)))
  unfolding list_by_label
  list_by_label-Keeps key value = record { keep = λ w h. law _ w (lists key value) h }

  pub cancel_fn-Keeps : (m : Ccm) → Keeps e P (cancel_fn m)
  unfolding cancel_fn
  cancel_fn-Keeps m =
      >>=-Keeps e P (lift (perform (cancel m.cluster_name))) _
        (record { keep = λ w h. law _ w (cancels _) h })
        (λ _.
          >>=-Keeps e P (list_by_label (node_ccm_label_key <> ("=" <> m.cluster_name)))
            (λ listed. elim listed.1 [
              | some x ↦ pure tt
              | none ↦ delete_with (load_balancer m.cloud) listed.0
            ])
            (list_by_label-Keeps _ _) (delete_listed-Keeps m))
