-- ===== src/Controller/Cancel/Again.antt =====
-- A second `EnsureLoadBalancerDeleted` for a service with tunnels.
use cloud_provider_kind.Base.{
  String, ℕ, zero, suc, Bool, false, ◌≡◌, ◌≢◌, refl, sym, ap, ◌∙◌, some, none, ◌∷◌,
}
use cloud_provider_kind.Base.Dict
use cloud_provider_kind.Base.Dict.{Dict}
use cloud_provider_kind.Api.{Service}
use cloud_provider_kind.Container
use cloud_provider_kind.Controller.Cancel.Calls.{IsCancelling, removes}
use cloud_provider_kind.Controller.Cancel.Keeps.{
  stop_all_keep, dump_logs-Keeps, ensure_load_balancer_deleted-Keeps,
}
use cloud_provider_kind.LoadBalancer.Names.{load_balancer_name}
use cloud_provider_kind.LoadBalancer.Server
use cloud_provider_kind.LoadBalancer.Server.{joined, remove_server_tunnels}
use cloud_provider_kind.LoadBalancer.Server.Deleted.{dump_logs-ok, ensure_load_balancer_deleted_lem}
use cloud_provider_kind.LoadBalancer.Server.Running.{none_of_check, rm_call}
use cloud_provider_kind.LoadBalancer.Tunnel.{Tunnel, Tunnels, stop_all, remove_tunnels}
use cloud_provider_kind.LoadBalancer.Tunnel.Stopped.{IsAt, removal_of, remove_tunnels_outcome}
use cloud_provider_kind.Provider.{Cloud, ensure_load_balancer_deleted}
use cloud_provider_kind.World.{Err, Result, ok, err, Action, Trace, Env, World, check, Keeps}

-- What the systems' documentation says of the command that takes an address from an interface: if
-- it ends well the interface is without the address, and it fails if that was so before. None of
-- the calls that cancel a manager give the interface an address.
pub record Loopback (e : Env) : Type 0 where
  pub has : Trace → String → Bool
  pub taken :
      (h : Trace) (ip : String)
      → (e.answer h (removal_of e ip)).error ≡ none
      → has (removal_of e ip ∷ h) ip ≡ false
  pub absent :
      (h : Trace) (ip : String)
      → has h ip ≡ false
      → (x : Err) × ((e.answer h (removal_of e ip)).error ≡ some x)
  pub stays :
      (h : Trace) (a : Action) (ip : String)
      → IsCancelling e a
      → has h ip ≡ false
      → has (a ∷ h) ip ≡ false

joined-err : (x : Err) (r : Result (Unit {0})) → (y : Err) × (joined (err x) r ≡ err y)
joined-err x (ok _) = (x, refl)
joined-err x (err y) = (_, refl)

-- The world after so many calls of `EnsureLoadBalancerDeleted`.
unfoldable pub after_deletions : ℕ → Cloud → String → Service → Env → World → World
after_deletions zero cloud cluster_name service e w = w
after_deletions (suc n) cloud cluster_name service e w =
    after_deletions n cloud cluster_name service e
      (ensure_load_balancer_deleted cloud cluster_name service e w).1

module _ (e : Env) (l : Loopback e) (ip : String) where
  abbrev IsOff : World → Type 0
  IsOff w = l.has w.trace ip ≡ false

  module _ (cloud : Cloud) (cluster_name : String) (service : Service) (port : String) (t : Tunnel)
      (tuns : Dict Tunnel) (ts : Tunnels) (managed : cloud.lb_controller.tunnel_manager ≡ some ts)
      (has' : Dict.lookup (load_balancer_name cluster_name service) ts ≡ some tuns)
      (found : Dict.lookup port tuns ≡ some t) (at' : IsAt ip tuns) (given : ip ≢ "") where
    abbrev name : String
    name = load_balancer_name cluster_name service

    deletion-Keeps : Keeps e IsOff (ensure_load_balancer_deleted cloud cluster_name service)
    deletion-Keeps =
        ensure_load_balancer_deleted-Keeps e IsOff (λ a w c off. l.stays _ a ip c off) cloud
          cluster_name service

    -- The first call has taken the address away.
    remove_tunnels-IsOff :
        (w : World) → (remove_tunnels name ts e w).0 ≡ ok tt → IsOff (remove_tunnels name ts e w).1
    remove_tunnels-IsOff w done =
        let (outcome, calls) =
          remove_tunnels_outcome name port ip t tuns ts e w has' found at' given in
        rw calls (l.taken _ ip (none_of_check _ (sym outcome ∙ done)))

    remove_tunnels-fails :
        (w : World) → IsOff w → (x : Err) × ((remove_tunnels name ts e w).0 ≡ err x)
    remove_tunnels-fails w off =
        let (outcome, calls) =
          remove_tunnels_outcome name port ip t tuns ts e w has' found at' given in
        let before = (stop_all tuns (e.order w.trace (Dict.keys tuns)) "" e w).1 in
        let (x, failed) =
          l.absent before.trace ip
            (stop_all_keep e IsOff (λ a v c h. l.stays _ a ip c h) tuns _ "" w off) in
        (x, outcome ∙ rw failed refl)

    deletion_fails :
        (w : World)
        → IsOff w
        → (x : Err) × ((ensure_load_balancer_deleted cloud cluster_name service e w).0 ≡ err x)
    unfolding ensure_load_balancer_deleted remove_server_tunnels
    deletion_fails w off =
        let (x, failed) = remove_tunnels-fails w off in
        let (before, _, outcome) =
          ensure_load_balancer_deleted_lem cloud.lb_controller cluster_name service e w in
        let r = check (e.answer before (rm_call e.runtime name)).error in
        let (y, joins) = joined-err x r in
        let fails : (remove_server_tunnels cloud.lb_controller name e w).0 ≡ err x =
          rw managed failed in
        (y, outcome ∙ ap (λ t. joined t r) fails ∙ joins)

    -- What follows the tunnels gives the address not back.
    deleted-IsOff :
        (w : World)
        → (remove_server_tunnels cloud.lb_controller name e w).0 ≡ ok tt
        → IsOff (ensure_load_balancer_deleted cloud cluster_name service e w).1
    unfolding ensure_load_balancer_deleted Server.ensure_load_balancer_deleted Container.delete
        remove_server_tunnels
    deleted-IsOff w done =
        let law = λ (a : Action) (v : World) (c : IsCancelling e a) (h : IsOff v).
          l.stays v.trace a ip c h in
        let w1 = (remove_server_tunnels cloud.lb_controller name e w).1 in
        let off : IsOff w1 = rw managed (remove_tunnels-IsOff w (rw managed at done)) in
        rw (dump_logs-ok name service e w1) (
          l.stays _ _ ip (removes cluster_name service)
            ((dump_logs-Keeps e IsOff law name service).keep w1 off))

    still-IsOff :
        (n : ℕ) (w : World) → IsOff w → IsOff (after_deletions n cloud cluster_name service e w)
    unfolding after_deletions
    still-IsOff zero w off = off
    still-IsOff (suc n) w off = still-IsOff n _ (deletion-Keeps.keep w off)

-- With an interface that keeps the laws above: once a call of `EnsureLoadBalancerDeleted` has
-- taken away the tunnels of a container, which are all on one address that is not empty, every
-- further call for the same service fails, as long as nothing comes between these calls: however
-- often it is tried again, and also where the first call has removed the container.
pub deleted_again_fails :
    (e : Env) (l : Loopback e) (ip : String) (cloud : Cloud) (cluster_name : String)
    (service : Service) (port : String) (t : Tunnel) (tuns : Dict Tunnel) (ts : Tunnels) (w : World)
    (n : ℕ)
    → let name = load_balancer_name cluster_name service in
      cloud.lb_controller.tunnel_manager ≡ some ts
      → Dict.lookup name ts ≡ some tuns
      → Dict.lookup port tuns ≡ some t
      → IsAt ip tuns
      → ip ≢ ""
      → (remove_server_tunnels cloud.lb_controller name e w).0 ≡ ok tt
      → (x : Err) × ((ensure_load_balancer_deleted cloud cluster_name service e
            (after_deletions (suc n) cloud cluster_name service e w)).0
          ≡ err x)
unfolding after_deletions
deleted_again_fails e l ip cloud cluster_name service port t tuns ts w n managed has found at' given
      done =
    let off =
      deleted-IsOff e l ip cloud cluster_name service port t tuns ts managed has found at' given w
        done in
    deletion_fails e l ip cloud cluster_name service port t tuns ts managed has found at' given _ (
      still-IsOff e l ip cloud cluster_name service port t tuns ts managed has found at' given n _
        off)
