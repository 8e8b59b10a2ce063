-- ===== src/LoadBalancer/Proxy/Update/Ready.antt =====
-- What it means that the proxy of a service was updated without an error.
use cloud_provider_kind.Base.{
  String, ◌<>◌, ℕ, zero, suc, ◌==◌, string_eq, nat_eq, eq_of_==, Bool-cases, ◌≡◌, ◌≢◌, refl, sym,
  ap, ◌∙◌, arith, true, false, some, none, List, ◌∷◌, ◌⊎◌, inl, inr, Option-cases,
}
use cloud_provider_kind.Base.Decimal.{itoa}
use cloud_provider_kind.Base.Dict
use cloud_provider_kind.Base.Dict.{Dict}
use cloud_provider_kind.Base.Text.{join_host_port, trim_space}
use cloud_provider_kind.Api.{Service, Node}
use cloud_provider_kind.Config.{Connectivity, unknown, direct, portmap, tunnel, is_direct}
use cloud_provider_kind.Container.{port_maps, ips}
use cloud_provider_kind.LoadBalancer.Names.{load_balancer_name}
use cloud_provider_kind.LoadBalancer.Proxy.Config.{config_data}
use cloud_provider_kind.LoadBalancer.Proxy.Template.{lds, cds}
use cloud_provider_kind.LoadBalancer.Proxy.Update.{
  envoy_admin_port, is_live, ready_url, port_not_found, poll_ready, wait_load_balancer_ready,
  update_service, direct_authority, published_authority, net, rendered, write_config, move_configs,
  proxy_config_path_lds, proxy_config_path_cds,
}
use cloud_provider_kind.World.{
  Result, ok, err, Response, Trace, Proc, http_get, Env, World, Ends, >>=-Ends, lift, Result-cases,
}

-- The host and port at which envoy's admin endpoint is asked: port 10000 of the container's IPv4
-- address, if the control plane is reached directly, and else the port of 127.0.0.1 that port
-- 10000 is published on, both as the container runtime told them.
abbrev pub IsAdmin : Env → String → String → Type 0
IsAdmin e name authority =
    (v : World) × ((portmaps : Dict String) × ((port_maps name e v).0 ≡ ok portmaps)
      × (let u = (port_maps name e v).1 in
          ((u.config.control_plane_connectivity ≡ direct)
            × ((both : String × String) × ((ips name e u).0 ≡ ok both)
                × (authority ≡ join_host_port both.0 "10000")))
          ⊎ ((u.config.control_plane_connectivity ≢ direct)
              × ((port : String) × (Dict.lookup "10000" portmaps ≡ some port)
                  × (authority ≡ join_host_port "127.0.0.1" port)))))

-- An answer with status 200 and the text LIVE.
abbrev pub SaysLive : Result Response → Type 0
SaysLive r =
    (resp : Response) × (r ≡ ok resp)
    × (resp.status_code ≡ 200)
    × ((text : String) × (resp.body ≡ ok text) × (trim_space text ≡ "LIVE"))

-- The latest call asked the admin endpoint of envoy whether it is ready, and it was.
abbrev pub IsReady : Env → String → Trace → Type 0
IsReady e name h =
    (authority : String) × IsAdmin e name authority
    × ((before : Trace) × (h ≡ http_get ("http://" <> (authority <> "/ready")) ∷ before)
        × SaysLive (e.answer before (http_get ("http://" <> (authority <> "/ready")))))

SaysLive-of_is_live : (r : Result Response) → is_live r ≡ true → SaysLive r
unfolding is_live
SaysLive-of_is_live (err x) h = absurd (ground arith)
SaysLive-of_is_live (ok resp) h = elim (Bool-cases (resp.status_code == 200)) [
  | inr bad ↦ let wrong : false ≡ true = rw bad at h in absurd (cc)
  | inl fine ↦ elim (Result-cases resp.body) [
    | inr (x, unread) ↦ let wrong : false ≡ true = rw (fine, unread) at h in absurd (cc)
    | inl (text, read) ↦
        let live : (trim_space text == "LIVE") ≡ true = rw (fine, read) at h in
        (
          resp,
          refl,
          eq_of_== resp.status_code 200 fine,
          (text, read, eq_of_== (trim_space text) "LIVE" live),
        )
  ]
]

poll_ready_lem :
    (rounds : ℕ) (name authority : String) (e : Env) (w : World)
    → IsAdmin e name authority
    → (poll_ready rounds authority e w).0 ≡ ok tt
    → IsReady e name (poll_ready rounds authority e w).1.trace
unfolding poll_ready
poll_ready_lem zero name authority e w admin h = absurd (cc)
poll_ready_lem (suc rounds) name authority e w admin h =
    let w1 : World = record w { trace = http_get (ready_url authority) ∷ w.trace } in
    elim (Bool-cases (is_live (e.answer w.trace (http_get (ready_url authority))))) [
      | inl live ↦
          rw (live, poll_ready) (authority, admin, (w.trace, refl, SaysLive-of_is_live _ live))
      | inr not_yet ↦
          let later : (poll_ready rounds authority e w1).0 ≡ ok tt =
            rw (not_yet, poll_ready) at h in
          rw (not_yet, poll_ready) (poll_ready_lem rounds name authority e w1 admin later)
    ]

direct_of : (k : Connectivity) → is_direct k ≡ true → k ≡ direct
direct_of direct h = refl
direct_of unknown h = absurd (cc)
direct_of portmap h = absurd (cc)
direct_of tunnel h = absurd (cc)

ne_direct_of : (k : Connectivity) → is_direct k ≡ false → k ≢ direct
ne_direct_of k h is = let wrong : true ≡ false = rw is at h in absurd (cc)

admin_port_text : itoa envoy_admin_port ≡ "10000"
unfolding itoa nat_eq
admin_port_text = refl

published_authority-none :
    (portmaps : Dict String) (e : Env) (w : World)
    → Dict.lookup (itoa envoy_admin_port) portmaps ≡ none
    → published_authority portmaps e w ≡ (err (port_not_found portmaps), w)
unfolding published_authority
published_authority-none portmaps e w missing = rw (missing, published_authority) refl

published_authority-some :
    (portmaps : Dict String) (port : String) (e : Env) (w : World)
    → Dict.lookup (itoa envoy_admin_port) portmaps ≡ some port
    → published_authority portmaps e w ≡ (ok (join_host_port "127.0.0.1" port), w)
unfolding published_authority
published_authority-some portmaps port e w found = rw (found, published_authority) refl

module _ (name : String) (timeout : ℕ) (e : Env) where
  wait_load_balancer_ready_lem :
      (w : World)
      → (wait_load_balancer_ready name timeout e w).0 ≡ ok tt
      → IsReady e name (wait_load_balancer_ready name timeout e w).1.trace
  unfolding wait_load_balancer_ready direct_authority
  wait_load_balancer_ready_lem w h =
      let u = (port_maps name e w).1 in
      elim (Result-cases (port_maps name e w).0) [
        | inr (x, failed) ↦ let wrong : err x ≡ ok tt = rw failed at h in absurd (cc)
        | inl (portmaps, read) ↦ elim (Bool-cases (is_direct u.config.control_plane_connectivity)) [
          | inl is ↦ elim (Result-cases (ips name e u).0) [
            | inr (x, failed) ↦
                let wrong : err x ≡ ok tt = rw (read, is, failed) at h in absurd (cc)
            | inl (both, told) ↦
                let admin : IsAdmin e name (join_host_port both.0 (itoa envoy_admin_port)) = (
                  w,
                  (
                    portmaps,
                    read,
                    inl (direct_of _ is, (both, told, ap (join_host_port both.0) admin_port_text)),
                  ),
                ) in
                rw (read, is, told) (poll_ready_lem _ name _ e _ admin (rw (read, is, told) at h))
          ]
          | inr off ↦ elim (Option-cases (Dict.lookup (itoa envoy_admin_port) portmaps)) [
            | inl missing ↦
                let law = published_authority-none portmaps e u missing in
                let wrong : err (port_not_found portmaps) ≡ ok tt = rw (read, off, law) at h in
                absurd (cc)
            | inr (port, found) ↦
                let law = published_authority-some portmaps port e u found in
                let found' : Dict.lookup "10000" portmaps ≡ some port =
                  ap (λ k. Dict.lookup k portmaps) (sym admin_port_text) ∙ found in
                let admin : IsAdmin e name (join_host_port "127.0.0.1" port) =
                  (w, (portmaps, read, inr (ne_direct_of _ off, (port, found', refl)))) in
                rw (read, off, law) (poll_ready_lem _ name _ e _ admin (rw (read, off, law) at h))
          ]
        ]
      ]

abbrev EndsReady : String → {A : Type 0} → Proc (Result A) → Type 0
EndsReady name m = Ends (λ e w. IsReady e name w.trace) m

wait_load_balancer_ready-EndsReady :
    (name : String) (timeout : ℕ) → EndsReady name (wait_load_balancer_ready name timeout)
wait_load_balancer_ready-EndsReady name timeout = record {
  at_end = λ e w b h. wait_load_balancer_ready_lem name timeout e w h;
}

-- If `proxyUpdateLoadBalancer` returns no error for a service, its latest call was one to
-- `/ready` of envoy's admin endpoint, at port 10000 of the container of the service or where that
-- is published, and it was answered with status 200 and the text `LIVE`.
pub update_service-IsReady :
    (cluster_name : String) (service : Service) (nodes : List Node) (e : Env) (w : World)
    → (update_service cluster_name service nodes e w).0 ≡ ok tt
    → IsReady e
        (load_balancer_name cluster_name service)
        (update_service cluster_name service nodes e w).1.trace
unfolding update_service
update_service-IsReady cluster_name service nodes e w h =
    let name = load_balancer_name cluster_name service in
    let all : EndsReady name (update_service cluster_name service nodes) =
      >>=-Ends _ (lift net) _ (λ n.
        let d = config_data n service nodes in
        >>=-Ends _ (rendered lds d) _ (λ lds_config.
          >>=-Ends _ (write_config name proxy_config_path_lds lds_config) _ (λ first.
            >>=-Ends _ (rendered cds d) _ (λ cds_config.
              >>=-Ends _ (write_config name proxy_config_path_cds cds_config) _ (λ second.
                >>=-Ends _ (move_configs name first second) (λ _. wait_load_balancer_ready name 30)
                  (λ _. wait_load_balancer_ready-EndsReady name 30)))))) in
    all.at_end e w tt h
