-- ===== src/LoadBalancer/Tunnel/Started.antt =====
-- The tunnels of a container after `setupTunnels` and `removeTunnels`.
use cloud_provider_kind.Base.{
  String, ℕ, ◌==◌, string_eq, if◌then◌else◌, Bool-cases, eq_of_==, ==-self, ==-ne, ◌≡◌, ◌≢◌, refl,
  ap, ◌∙◌, some, List, [], ◌∷◌, inl, inr, In,
}
use cloud_provider_kind.Base.Dict
use cloud_provider_kind.Base.Dict.{Dict, lookup-insert}
use cloud_provider_kind.Base.Entries.{contains-order, In-of_contains}
use cloud_provider_kind.LoadBalancer.Tunnel.{
  Tunnel, Tunnels, new_tunnel, local_address, start, tunnels_of, put_tunnel, port_at, start_all,
  prepare, setup_tunnels,
}
use cloud_provider_kind.World.{ok, err, listen, Env, World, Result-cases}

lookup-put_tunnel :
    (c name port : String) (t : Tunnel) (ts : Tunnels)
    → c ≢ name
    → Dict.lookup c (put_tunnel name port t ts) ≡ Dict.lookup c ts
unfolding put_tunnel
lookup-put_tunnel c name port t ts other = lookup-insert c name _ ts ∙ rw (==-ne c name other)

tunnels_of-some :
    (name : String) (inner : Dict Tunnel) (ts : Tunnels)
    → Dict.lookup name ts ≡ some inner
    → tunnels_of name ts ≡ inner
tunnels_of-some name inner ts h = rw (h, tunnels_of) refl

tunnels_of-put_tunnel :
    (name p port : String) (t : Tunnel) (ts : Tunnels)
    → Dict.lookup p (tunnels_of name (put_tunnel name port t ts))
      ≡ (if p == port then some t else Dict.lookup p (tunnels_of name ts))
unfolding put_tunnel
tunnels_of-put_tunnel name p port t ts =
    let inner = Dict.insert port t (tunnels_of name ts) in
    let found : Dict.lookup name (Dict.insert name inner ts) ≡ some inner =
      lookup-insert name name inner ts ∙ rw (==-self name) in
    ap (Dict.lookup p) (tunnels_of-some name inner _ found)
    ∙ lookup-insert p port t (tunnels_of name ts)

start-others :
    (c name ipv4 : String) (portmaps : Dict String) (ports : List String) (ts : Tunnels) (e : Env)
    (w : World)
    → c ≢ name
    → Dict.lookup c (start_all name ipv4 portmaps ports ts e w).0.1 ≡ Dict.lookup c ts
unfolding start_all start
start-others c name ipv4 portmaps [] ts e w other = refl
start-others c name ipv4 portmaps (port ∷ ports) ts e w other =
    let t = new_tunnel ipv4 port "localhost" (port_at port portmaps) in
    elim (Result-cases (e.answer w.trace (listen (local_address t)))) [
      | inr (x, failed) ↦ rw (failed, start_all) refl
      | inl (ln, started) ↦
          rw (started, start_all)
            (start-others c name ipv4 portmaps ports _ e _ other
              ∙ lookup-put_tunnel c name port _ ts other)
    ]

-- Whether or not it fails, `setupTunnels` leaves the tunnels of all other containers as they are.
pub setup_tunnels_others :
    (c name : String) (ts : Tunnels) (e : Env) (w : World)
    → c ≢ name
    → Dict.lookup c (setup_tunnels name ts e w).0.1 ≡ Dict.lookup c ts
unfolding setup_tunnels
setup_tunnels_others c name ts e w other = elim (Result-cases (prepare name e w).0) [
  | inr (x, failed) ↦ rw (failed, setup_tunnels) refl
  | inl ((portmaps, ipv4), done) ↦
      rw (done, setup_tunnels) (start-others c name ipv4 portmaps _ ts e _ other)
]

-- The tunnel of a port of the container listens on it.
abbrev pub IsStarted : String → String → Dict String → String → Tunnels → Type 0
IsStarted name ipv4 portmaps port ts =
    (ln : ℕ) × (Dict.lookup port (tunnels_of name ts)
      ≡ some (record (new_tunnel ipv4 port "localhost" (port_at port portmaps)) {
        listener = some ln;
      }))

module _ (name ipv4 : String) (portmaps : Dict String) (e : Env) where
  start-keep :
      (port : String) (ports : List String) (ts : Tunnels) (w : World)
      → IsStarted name ipv4 portmaps port ts
      → IsStarted name ipv4 portmaps port (start_all name ipv4 portmaps ports ts e w).0.1
  unfolding start_all start
  start-keep port [] ts w h = h
  start-keep port (q ∷ ports) ts w h =
      let t = new_tunnel ipv4 q "localhost" (port_at q portmaps) in
      elim (Result-cases (e.answer w.trace (listen (local_address t)))) [
        | inr (x, failed) ↦ rw (failed, start_all) h
        | inl (ln, started) ↦
            let law = tunnels_of-put_tunnel name port q (record t { listener = some ln }) ts in
            rw (started, start_all)
              (start-keep port ports _ _ (elim (Bool-cases (port == q)) [
                | inl same ↦ (ln, law ∙ rw (same, ← eq_of_== port q same) refl)
                | inr differ ↦ (h.0, law ∙ rw differ h.1)
              ]))
      ]

  start_all_lem :
      (port : String) (ports : List String) (ts : Tunnels) (w : World)
      → (start_all name ipv4 portmaps ports ts e w).0.0 ≡ ok tt
      → In port ports
      → IsStarted name ipv4 portmaps port (start_all name ipv4 portmaps ports ts e w).0.1
  unfolding start_all start
  start_all_lem port [] ts w done i = elim i [ ]
  start_all_lem port (q ∷ ports) ts w done i =
      let t = new_tunnel ipv4 q "localhost" (port_at q portmaps) in
      elim (Result-cases (e.answer w.trace (listen (local_address t)))) [
        | inr (x, failed) ↦
            let wrong : err x ≡ ok tt = rw (failed, start_all) at done in absurd (cc)
        | inl (ln, started) ↦
            rw (started, start_all)
              (elim i [
                | inl here ↦
                    start-keep port ports _ _
                      (ln, tunnels_of-put_tunnel name port q _ ts ∙ rw (here, ==-self q) refl)
                | inr later ↦ start_all_lem port ports _ _ (rw (started, start_all) at done) later
              ])
      ]

-- If `setupTunnels` returns no error, every port that the container publishes has a tunnel that
-- listens, which forwards to the port of the host that it is published on.
pub setup_tunnels-IsStarted :
    (name : String) (ts : Tunnels) (e : Env) (w : World)
    → (setup_tunnels name ts e w).0.0 ≡ ok tt
    → (portmaps : Dict String) × ((ipv4 : String) × ((prepare name e w).0 ≡ ok (portmaps, ipv4))
        × ((port host_port : String)
            → Dict.lookup port portmaps ≡ some host_port
            → IsStarted name ipv4 portmaps port (setup_tunnels name ts e w).0.1))
unfolding setup_tunnels
setup_tunnels-IsStarted name ts e w h = elim (Result-cases (prepare name e w).0) [
  | inr (x, failed) ↦ let wrong : err x ≡ ok tt = rw (failed, setup_tunnels) at h in absurd (cc)
  | inl ((portmaps, ipv4), done) ↦
      let ports = e.order (prepare name e w).1.trace (Dict.keys portmaps) in
      let started : (start_all name ipv4 portmaps ports ts e (prepare name e w).1).0.0 ≡ ok tt =
        rw (done, setup_tunnels) at h in
      (
        portmaps,
        (
          ipv4,
          done,
          λ port host_port found.
              let visited = contains-order port host_port portmaps ports (e.order-perm _ _) found in
              rw (done, setup_tunnels)
                (start_all_lem name ipv4 portmaps e port ports ts _ started
                  (In-of_contains ports port visited)),
        ),
      )
]
