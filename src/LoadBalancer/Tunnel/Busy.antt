-- ===== src/LoadBalancer/Tunnel/Busy.antt =====
-- What becomes of `setupTunnels` for a container that has its tunnels already.
use cloud_provider_kind.Base.{
  String, ℕ, Bool, true, ◌≡◌, refl, sym, ◌∙◌, Option, some, none, List, [], ◌∷◌, inl, inr, In,
}
use cloud_provider_kind.Base.Dict
use cloud_provider_kind.Base.Dict.{Dict}
use cloud_provider_kind.Base.Text.{join_host_port}
use cloud_provider_kind.Base.Entries.{contains-order, In-of_contains}
use cloud_provider_kind.Container.{port_maps, ips}
use cloud_provider_kind.Container.Inspect.Keeps.{port_maps-Keeps, ips-Keeps}
use cloud_provider_kind.LoadBalancer.Tunnel.{
  add_ip_to_local_interface, Tunnel, Tunnels, new_tunnel, local_address, start, port_at, start_all,
  prepare, setup_tunnels,
}
use cloud_provider_kind.World.{
  Err, ok, err, output_lines, Keeps, >>=-Keeps, pure-Keeps, listen, run, Action, Trace, Env, World,
  Result-cases,
}

-- The calls with which tunnels are set up.
pub data IsSetUp : Action → Type 0 where
  listens : (a : String) → IsSetUp (listen a)
  runs : (argv : List String) (stdin : Option String) → IsSetUp (run argv stdin)
  reads : (argv : List String) → IsSetUp (output_lines argv)

-- What the system's documentation says of `listen`: an address that is listened on is bound, no
-- other listener gets it while it is, and the calls that set tunnels up do not release it.
pub record Sockets (e : Env) : Type 0 where
  pub bound : Trace → String → Bool
  pub listen_bound :
      (h : Trace) (a : String) (ln : ℕ)
      → e.answer h (listen a) ≡ ok ln
      → bound (listen a ∷ h) a ≡ true
  pub listen_busy :
      (h : Trace) (a : String) → bound h a ≡ true → (x : Err) × (e.answer h (listen a) ≡ err x)
  pub stays_bound :
      (h : Trace) (b : Action) (a : String) → IsSetUp b → bound h a ≡ true → bound (b ∷ h) a ≡ true

-- Whether or not it listens, `Start` makes one call.
pub start-world :
    (t : Tunnel) (e : Env) (w : World)
    → (start t e w).1 ≡ record w { trace = listen (local_address t) ∷ w.trace }
unfolding start
start-world t e w = elim (Result-cases (e.answer w.trace (listen (local_address t)))) [
  | inl (ln, started) ↦ rw started refl
  | inr (x, failed) ↦ rw failed refl
]

module _ (e : Env) (s : Sockets e) (name ipv4 : String) where
  start_all-keep :
      (portmaps : Dict String) (a : String) (ports : List String) (ts : Tunnels) (w : World)
      → s.bound w.trace a ≡ true
      → s.bound (start_all name ipv4 portmaps ports ts e w).1.trace a ≡ true
  unfolding start_all start
  start_all-keep portmaps a [] ts w h = h
  start_all-keep portmaps a (p ∷ ports) ts w h =
      let t = new_tunnel ipv4 p "localhost" (port_at p portmaps) in
      let w1 = (start t e w).1 in
      let after : s.bound w1.trace a ≡ true =
        rw (start-world t e w) (s.stays_bound w.trace (listen (local_address t)) a (listens _) h) in
      elim (Result-cases (e.answer w.trace (listen (local_address t)))) [
        | inr (x, failed) ↦ rw (failed, start_all) after
        | inl (ln, started) ↦ rw (started, start_all) (start_all-keep portmaps a ports _ w1 after)
      ]

  -- After the loop the address of every port that it visited is bound.
  start_all_bound :
      (portmaps : Dict String) (port : String) (ports : List String) (ts : Tunnels) (w : World)
      → (start_all name ipv4 portmaps ports ts e w).0.0 ≡ ok tt
      → In port ports
      → s.bound (start_all name ipv4 portmaps ports ts e w).1.trace (join_host_port ipv4 port)
        ≡ true
  unfolding start_all start
  start_all_bound portmaps port [] ts w done i = elim i [ ]
  start_all_bound portmaps port (p ∷ ports) ts w done i =
      let t = new_tunnel ipv4 p "localhost" (port_at p portmaps) in
      let w1 = (start t e w).1 in
      elim (Result-cases (e.answer w.trace (listen (local_address t)))) [
        | inr (x, failed) ↦
            let wrong : err x ≡ ok tt = rw (failed, start_all) at done in absurd (cc)
        | inl (ln, started) ↦
            rw (started, start_all)
              (elim i [
                | inl here ↦ rw here (
                    start_all-keep portmaps (local_address t) ports _ w1
                      (rw (start-world t e w) (s.listen_bound w.trace _ ln started)))
                | inr later ↦
                    start_all_bound portmaps port ports _ w1 (rw (started, start_all) at done) later
              ])
      ]

  -- The loop fails if it visits a port whose address is bound.
  start_all_busy :
      (portmaps : Dict String) (port : String) (ports : List String) (ts : Tunnels) (w : World)
      → s.bound w.trace (join_host_port ipv4 port) ≡ true
      → In port ports
      → (x : Err) × ((start_all name ipv4 portmaps ports ts e w).0.0 ≡ err x)
  unfolding start_all start
  start_all_busy portmaps port [] ts w b i = elim i [ ]
  start_all_busy portmaps port (p ∷ ports) ts w b i =
      let t = new_tunnel ipv4 p "localhost" (port_at p portmaps) in
      let w1 = (start t e w).1 in
      elim (Result-cases (e.answer w.trace (listen (local_address t)))) [
        | inr (x, failed) ↦ (x, rw (failed, start_all) refl)
        | inl (ln, started) ↦ elim i [
          | inl here ↦
              let (x, busy) = s.listen_busy w.trace (local_address t) (rw (← here) b) in
              let wrong : ok ln ≡ err x = sym started ∙ busy in absurd (cc)
          | inr later ↦
              rw (started, start_all)
                (start_all_busy portmaps port ports _ w1
                  (rw (start-world t e w)
                    (s.stays_bound w.trace (listen (local_address t)) _ (listens _) b))
                  later)
        ]
      ]

  prepare-bound :
      (a : String) (w : World)
      → s.bound w.trace a ≡ true
      → s.bound (prepare name e w).1.trace a ≡ true
  unfolding prepare add_ip_to_local_interface
  prepare-bound a w h =
      let P : World → Type 0 = λ w'. s.bound w'.trace a ≡ true in
      let read = λ (argv : List String) (w' : World) (b : P w').
        s.stays_bound w'.trace (output_lines argv) a (reads argv) b in
      let kept : Keeps e P (prepare name) =
        >>=-Keeps e P (port_maps name) _ (port_maps-Keeps e P read name) (λ portmaps.
          >>=-Keeps e P (ips name) _ (ips-Keeps e P read name) (λ both.
            >>=-Keeps e P (add_ip_to_local_interface both.0) (λ _ e w. (ok (portmaps, both.0), w))
              (record { keep = λ w' b. s.stays_bound w'.trace _ a (runs _ none) b })
              (λ _. pure-Keeps e P (λ e w. ok (portmaps, both.0))))) in
      kept.keep w h

-- When the tunnels of a container are up, `setupTunnels` fails if it is called for it once more
-- and finds the same address and a port that it found before: the address of that port is in use.
pub second_setup_fails :
    (e : Env) (s : Sockets e) (name ipv4 port first second : String)
    (portmaps portmaps' : Dict String) (ts ts' : Tunnels) (w : World)
    → (setup_tunnels name ts e w).0.0 ≡ ok tt
    → (prepare name e w).0 ≡ ok (portmaps, ipv4)
    → Dict.lookup port portmaps ≡ some first
    → (prepare name e (setup_tunnels name ts e w).1).0 ≡ ok (portmaps', ipv4)
    → Dict.lookup port portmaps' ≡ some second
    → (x : Err) × ((setup_tunnels name ts' e (setup_tunnels name ts e w).1).0.0 ≡ err x)
unfolding setup_tunnels
second_setup_fails e s name ipv4 port first second portmaps portmaps' ts ts' w up found was again
      still =
    let w1 = (prepare name e w).1 in
    let ports = e.order w1.trace (Dict.keys portmaps) in
    let w2 = (setup_tunnels name ts e w).1 in
    let ports' = e.order (prepare name e w2).1.trace (Dict.keys portmaps') in
    let i =
      In-of_contains ports port (contains-order port first portmaps ports (e.order-perm _ _) was) in
    let i' =
      In-of_contains ports' port
        (contains-order port second portmaps' ports' (e.order-perm _ _) still) in
    let b : s.bound w2.trace (join_host_port ipv4 port) ≡ true =
      rw (found, setup_tunnels)
        (start_all_bound e s name ipv4 portmaps port ports ts w1 (rw (found, setup_tunnels) at up)
          i) in
    rw (again, setup_tunnels)
      (start_all_busy e s name ipv4 portmaps' port ports' ts' _ (prepare-bound e s name ipv4 _ w2 b)
        i')
