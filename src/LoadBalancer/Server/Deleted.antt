-- ===== src/LoadBalancer/Server/Deleted.antt =====
-- What `EnsureLoadBalancerDeleted` does in every case.
use cloud_provider_kind.Base.{String, Bool-cases, ◌≡◌, none, [], ◌∷◌, inl, inr}
use cloud_provider_kind.Api.{Service}
use cloud_provider_kind.Container.{delete}
use cloud_provider_kind.LoadBalancer.Names.{load_balancer_name}
use cloud_provider_kind.LoadBalancer.Server.{
  Server, joined, dump_logs, remove_server_tunnels, ensure_load_balancer_deleted,
}
use cloud_provider_kind.World.{ok, Trace, run, Env, World, check}

pub dump_logs-ok :
    (name : String) (service : Service) (e : Env) (w : World)
    → (dump_logs name service e w).0 ≡ ok tt
unfolding dump_logs
dump_logs-ok name service e w = elim (Bool-cases w.config.enable_log_dump) [
  | inl on ↦ rw on
  | inr off ↦ rw off
]

-- Whatever the tunnels and the logs come to, the last thing that `EnsureLoadBalancerDeleted` does
-- is to remove the container of the service by force. Its result joins the error of the tunnels
-- and that of this command.
pub ensure_load_balancer_deleted_lem :
    (s : Server) (cluster_name : String) (service : Service) (e : Env) (w : World)
    → let name = load_balancer_name cluster_name service in
      let removal = run (e.runtime ∷ "rm" ∷ "-f" ∷ name ∷ []) none in
      let after = ensure_load_balancer_deleted s cluster_name service e w in
      (before : Trace) × (after.1.trace ≡ removal ∷ before)
      × (after.0
          ≡ joined (remove_server_tunnels s name e w).0 (check (e.answer before removal).error))
unfolding ensure_load_balancer_deleted delete
ensure_load_balancer_deleted_lem s cluster_name service e w =
    let name = load_balancer_name cluster_name service in
    let w1 = (remove_server_tunnels s name e w).1 in
    (
      (dump_logs name service e w1).1.trace,
      rw (dump_logs-ok name service e w1),
      rw (dump_logs-ok name service e w1),
    )
