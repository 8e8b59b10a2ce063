-- ===== src/LoadBalancer/Proxy/Update/Waits.antt =====
-- What waiting for the proxy leaves true.
use cloud_provider_kind.Base.{
  String, ℕ, zero, suc, if◌then◌else◌, Bool, Bool-cases, true, false, List, ◌∷◌, inl, inr,
  Option-cases,
}
use cloud_provider_kind.Base.Decimal.{itoa}
use cloud_provider_kind.Base.Text.{join_host_port}
use cloud_provider_kind.Base.Dict
use cloud_provider_kind.Base.Dict.{Dict}
use cloud_provider_kind.Config.{is_direct}
use cloud_provider_kind.Container.{port_maps, ips}
use cloud_provider_kind.Container.Inspect.Keeps.{port_maps-Keeps, ips-Keeps}
use cloud_provider_kind.LoadBalancer.Proxy.Update.{
  is_live, ready_url, envoy_admin_port, poll_ready, direct_authority, published_authority,
  wait_load_balancer_ready,
}
use cloud_provider_kind.World.{
  ok, Action, Env, World, http_get, output_lines, poll_budget, perform, config, lift, Keeps,
  >>=-Keeps, pure-Keeps,
}

-- The calls with which the program waits for envoy.
pub data IsWait : Action → Type 0 where
  lines : (argv : List String) → IsWait (output_lines argv)
  asked : (url : String) → IsWait (http_get url)
  budget : (interval timeout : ℕ) → IsWait (poll_budget interval timeout)

module _ (e : Env) (P : World → Type 0)
    (law : (a : Action) (w : World) → IsWait a → P w → P (record w { trace = a ∷ w.trace })) where
  poll_ready_keep :
      (n : ℕ) (authority : String) (w : World) → P w → P (poll_ready n authority e w).1
  unfolding poll_ready
  poll_ready_keep zero authority w h = h
  poll_ready_keep (suc n) authority w h =
      let kept = law (http_get (ready_url authority)) w (asked _) h in
      elim (Bool-cases (is_live (e.answer w.trace (http_get (ready_url authority))))) [
        | inl live ↦ rw (live, poll_ready) kept
        | inr not_yet ↦ rw (not_yet, poll_ready) (poll_ready_keep n authority _ kept)
      ]

  authority-Keeps :
      (direct : Bool) (name : String) (portmaps : Dict String)
      → Keeps e P (if direct then direct_authority name else published_authority portmaps)
  unfolding direct_authority published_authority
  authority-Keeps true name portmaps =
      >>=-Keeps e P (ips name) (λ both e w. (ok (join_host_port both.0 (itoa envoy_admin_port)), w))
        (ips-Keeps e P (λ argv w. law (output_lines argv) w (lines argv)) name)
        (λ both. pure-Keeps e P (λ e w. ok (join_host_port both.0 (itoa envoy_admin_port))))
  authority-Keeps false name portmaps =
      elim (Option-cases (Dict.lookup (itoa envoy_admin_port) portmaps)) [
        | inl absent ↦ rw (absent, published_authority) (record { keep = λ w h. h })
        | inr (port, there) ↦ rw (there, published_authority) (record { keep = λ w h. h })
      ]

  pub wait_load_balancer_ready-Keeps :
      (name : String) (timeout : ℕ) → Keeps e P (wait_load_balancer_ready name timeout)
  unfolding wait_load_balancer_ready
  wait_load_balancer_ready-Keeps name timeout =
      >>=-Keeps e P (port_maps name) _
        (port_maps-Keeps e P (λ argv w. law (output_lines argv) w (lines argv)) name)
        (λ portmaps.
          >>=-Keeps e P (lift config) _ (record { keep = λ w h. h })
            (λ c.
              >>=-Keeps e P
                (if is_direct c.control_plane_connectivity
                  then direct_authority name
                  else published_authority portmaps)
                _ (authority-Keeps (is_direct c.control_plane_connectivity) name portmaps)
                (λ authority.
                  >>=-Keeps e P (lift (perform (poll_budget 1 timeout)))
                    (λ rounds. poll_ready rounds authority)
                    (record { keep = λ w h. law (poll_budget 1 timeout) w (budget 1 timeout) h })
                    (λ rounds. record { keep = poll_ready_keep rounds authority }))))
