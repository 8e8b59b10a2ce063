-- ===== src/LoadBalancer/Server/Ensured.antt =====
-- What it means that `EnsureLoadBalancer` returned a status.
use cloud_provider_kind.Base.{String, ◌<>◌, ◌≡◌, refl, sym, ◌∙◌, true, some, List, inl, inr}
use cloud_provider_kind.Api.{Service, Node, LoadBalancerStatus}
use cloud_provider_kind.Container.{ips}
use cloud_provider_kind.LoadBalancer.Names.{load_balancer_name}
use cloud_provider_kind.LoadBalancer.Proxy.Config.{config_data}
use cloud_provider_kind.LoadBalancer.Proxy.Template.{lds, cds, proxy_config}
use cloud_provider_kind.LoadBalancer.Proxy.Update.{update_service, proxy_update_load_balancer}
use cloud_provider_kind.LoadBalancer.Proxy.Update.Files.{Files}
use cloud_provider_kind.LoadBalancer.Proxy.Update.Installed.{update_service_files}
use cloud_provider_kind.LoadBalancer.Proxy.Update.Ready.{IsReady, update_service-IsReady}
use cloud_provider_kind.LoadBalancer.Server.{
  Server, remove_stale, create_missing, update_load_balancer, ensure_container, ensure_tunnels,
  after_tunnels, after_container, ensure_load_balancer, status_of,
}
use cloud_provider_kind.LoadBalancer.Server.Running.{Runtime, IsAlone, ensure_running}
use cloud_provider_kind.LoadBalancer.Server.Status.{ensure_status_lem}
use cloud_provider_kind.World.{Err, errorf, Result, ok, err, Env, World, Result-cases}

module _ (s : Server) (cluster_name : String) (service : Service) (nodes : List Node) (e : Env)
    (w : World) where
  -- The worlds between the steps.
  abbrev name : String
  name = load_balancer_name cluster_name service

  abbrev pub removed : Result (Unit {0}) × World
  removed = remove_stale name e w

  abbrev pub created : Result (Unit {0}) × World
  created = create_missing s cluster_name service e removed.1

  abbrev pub updated : Result (Unit {0}) × World
  updated = update_service cluster_name service nodes e created.1

  abbrev pub tunnelled : (Result (Unit {0}) × Server) × World
  tunnelled = ensure_tunnels s name e updated.1

  ensure_container-ok :
      (ensure_container s cluster_name service nodes e w).0 ≡ ok tt
      → (removed.0 ≡ ok tt)
        × (created.0 ≡ ok tt)
        × (updated.0 ≡ ok tt)
        × ((ensure_container s cluster_name service nodes e w).1 ≡ updated.1)
  unfolding ensure_container update_load_balancer proxy_update_load_balancer
  ensure_container-ok h = elim (Result-cases removed.0) [
    | inr (x, failed) ↦ let wrong : err x ≡ ok tt = rw failed at h in absurd (cc)
    | inl (_, r) ↦ elim (Result-cases created.0) [
      | inr (x, failed) ↦ let wrong : err x ≡ ok tt = rw (r, failed) at h in absurd (cc)
      | inl (_, c) ↦ (r, c, rw (r, c) at h, rw (r, c) refl)
    ]
  ]

  -- Each step has succeeded, in this order, and the status is that of the addresses read last.
  record IsEnsured (status : LoadBalancerStatus) : Type 0 where
    pub is_removed : removed.0 ≡ ok tt
    pub is_created : created.0 ≡ ok tt
    pub is_updated : updated.0 ≡ ok tt
    pub is_tunnelled : tunnelled.0.0 ≡ ok tt
    pub addresses : String × String
    pub are_read : (ips name e tunnelled.1).0 ≡ ok addresses
    pub is_status : status ≡ status_of service addresses

  after_tunnels-ok :
      (s' : Server) (r : Result (Unit {0})) (w' : World) (status : LoadBalancerStatus)
      → (after_tunnels cluster_name service s' r e w').0.0 ≡ ok status
      → (r ≡ ok tt)
        × ((both : String × String) × ((ips name e w').0 ≡ ok both)
            × (status ≡ status_of service both))
  unfolding after_tunnels
  after_tunnels-ok s' (err x) w' status h = absurd (cc)
  after_tunnels-ok s' (ok tt) w' status h = elim (ensure_status_lem cluster_name service e w') [
    | inl (both, are, is) ↦
        let same : ok (status_of service both) ≡ ok status = sym is ∙ h in
        (refl, (both, are, sym (cc)))
    | inr (x, are, is) ↦ let wrong : err _ ≡ ok status = sym is ∙ h in absurd (cc)
  ]

  after_container-ok :
      (r : Result (Unit {0})) (w' : World) (status : LoadBalancerStatus)
      → (after_container cluster_name service s r e w').0.0 ≡ ok status
      → (r ≡ ok tt)
        × ((ensure_tunnels s name e w').0.0 ≡ ok tt)
        × ((both : String × String) × ((ips name e (ensure_tunnels s name e w').1).0 ≡ ok both)
            × (status ≡ status_of service both))
  unfolding after_container
  after_container-ok (err x) w' status h = absurd (cc)
  after_container-ok (ok tt) w' status h =
      let (r, rest) = after_tunnels-ok _ _ _ status h in (refl, r, rest)

  ensure_load_balancer-IsEnsured :
      (status : LoadBalancerStatus)
      → (ensure_load_balancer s cluster_name service nodes e w).0.0 ≡ ok status
      → IsEnsured status
  unfolding ensure_load_balancer
  ensure_load_balancer-IsEnsured status h =
      let (done, t, (both, are, is)) = after_container-ok _ _ status h in
      let (r, c, u, same) = ensure_container-ok done in
      record {
        is_removed = r;
        is_created = c;
        is_updated = u;
        is_tunnelled = rw (← same) t;
        addresses = both;
        are_read = rw (← same) are;
        is_status = is;
      }

-- If `EnsureLoadBalancer` returns a status, and the container runtime and the files keep the laws of
-- Runtime and Files, then the container of the service ran when its configuration was written, if
-- no other running container had a name that contains its name; afterwards `/home/envoy/lds.yaml`
-- and `/home/envoy/cds.yaml` held the rendered configuration of the service and the nodes, and
-- envoy's admin endpoint had just answered with status 200 and `LIVE`; and the status is that of
-- the addresses which the container had in the end.
pub ensure_load_balancer_lem :
    (s : Server) (cluster_name : String) (service : Service) (nodes : List Node) (e : Env)
    (r : Runtime e) (f : Files e) (w : World) (status : LoadBalancerStatus) (l c : String)
    → let name = load_balancer_name cluster_name service in
      let before = (created s cluster_name service nodes e w).1 in
      let after = (updated s cluster_name service nodes e w).1 in
      let last = (tunnelled s cluster_name service nodes e w).1 in
      IsAlone r w.trace name
      → proxy_config lds (config_data e.net service nodes) ≡ ok l
      → proxy_config cds (config_data e.net service nodes) ≡ ok c
      → (ensure_load_balancer s cluster_name service nodes e w).0.0 ≡ ok status
      → (r.live before.trace name ≡ true)
        × IsReady e name after.trace
        × (f.content after.trace name "/home/envoy/lds.yaml" ≡ some l)
        × (f.content after.trace name "/home/envoy/cds.yaml" ≡ some c)
        × ((both : String × String) × ((ips name e last).0 ≡ ok both)
            × (status ≡ status_of service both))
ensure_load_balancer_lem s cluster_name service nodes e r f w status l c alone is_l is_c h =
    let d = ensure_load_balancer-IsEnsured s cluster_name service nodes e w status h in
    let before = (created s cluster_name service nodes e w).1 in
    let (lds_file, cds_file) =
      update_service_files e f cluster_name service nodes l c before is_l is_c d.is_updated in
    (
      ensure_running e r s cluster_name service w alone d.is_removed d.is_created,
      update_service-IsReady cluster_name service nodes e before d.is_updated,
      lds_file,
      cds_file,
      (d.addresses, d.are_read, d.is_status),
    )

-- If `EnsureLoadBalancer` has the container and its tunnels ready, and the addresses of the
-- container cannot be read, it returns that the load balancer is not found, whatever the error of
-- reading them is.
pub ensure_load_balancer_hides :
    (s : Server) (cluster_name : String) (service : Service) (nodes : List Node) (e : Env)
    (w : World) (x : Err)
    → let name = load_balancer_name cluster_name service in
      let ready = ensure_container s cluster_name service nodes e w in
      let last = ensure_tunnels s name e ready.1 in
      ready.0 ≡ ok tt
      → last.0.0 ≡ ok tt
      → (ips name e last.1).0 ≡ err x
      → (ensure_load_balancer s cluster_name service nodes e w).0.0
        ≡ err (errorf ("loadbalancer " <> (name <> " not found")))
unfolding ensure_load_balancer after_container after_tunnels
ensure_load_balancer_hides s cluster_name service nodes e w x ready tunnels unread =
    let name = load_balancer_name cluster_name service in
    let last = ensure_tunnels s name e (ensure_container s cluster_name service nodes e w).1 in
    rw (ready, tunnels)
      (elim (ensure_status_lem cluster_name service e last.1) [
        | inl (both, are, _) ↦ let wrong : ok both ≡ err x = sym are ∙ unread in absurd (cc)
        | inr (y, are, is) ↦ is
      ])
