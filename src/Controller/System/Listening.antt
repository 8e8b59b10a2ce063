-- ===== src/Controller/System/Listening.antt =====
-- The tunnels that a cloud keeps, through the calls that set tunnels up.
use cloud_provider_kind.Base.{
  String, ℕ, ◌==◌, string_eq, Bool-cases, eq_of_==, ◌≡◌, refl, some, ◌⊎◌, List, [], ◌∷◌, inl, inr,
  Option-cases,
}
use cloud_provider_kind.Base.Dict
use cloud_provider_kind.Base.Dict.{Dict, lookup-insert}
use cloud_provider_kind.Api.{Service, Node}
use cloud_provider_kind.LoadBalancer.Server.{
  Server, ensure_tunnels, after_tunnels, after_container, ensure_load_balancer,
}
use cloud_provider_kind.LoadBalancer.Tunnel.{
  Tunnel, Tunnels, new_tunnel, local_address, start, tunnels_of, put_tunnel, port_at, start_all,
  prepare, setup_tunnels,
}
use cloud_provider_kind.World.{Result, ok, err, listen, Env, World, Result-cases}

-- A tunnel that listens on the port that it is kept under, and forwards to this host.
pub record IsListening (port : String) (t : Tunnel) : Type 0 where
  pub own_port : t.local_port ≡ port
  pub to_host : t.remote_ip ≡ "localhost"
  pub listening : (ln : ℕ) × (t.listener ≡ some ln)

abbrev pub AllListen : Tunnels → Type 0
AllListen ts =
    (name port : String) (tuns : Dict Tunnel) (t : Tunnel)
    → Dict.lookup name ts ≡ some tuns
    → Dict.lookup port tuns ≡ some t
    → IsListening port t

pub lookup_nothing :
    {V : Type 0} (k : String) (v : V) → Dict.lookup {V = V} k [] ≡ some v → (A : Type 0) → A
unfolding Dict.lookup
lookup_nothing k v h A = absurd (cc)

pub nothing-AllListen : AllListen []
nothing-AllListen name port tuns t has found = lookup_nothing name tuns has (IsListening port t)

-- What a key of a map with one more entry stands for.
pub lookup-insert-cases :
    {V : Type 0} (j k : String) (v u : V) (m : Dict V)
    → Dict.lookup j (Dict.insert k v m) ≡ some u
    → ((j ≡ k) × (v ≡ u)) ⊎ (Dict.lookup j m ≡ some u)
lookup-insert-cases j k v u m h = elim (Bool-cases (j == k)) [
  | inl same ↦
      let is : some v ≡ some u = rw (lookup-insert, same) at h in inl (eq_of_== j k same, cc)
  | inr other ↦ inr (rw (lookup-insert, other) at h)
]

tunnels_of-AllListen :
    (ts : Tunnels) (name port : String) (t : Tunnel)
    → AllListen ts
    → Dict.lookup port (tunnels_of name ts) ≡ some t
    → IsListening port t
tunnels_of-AllListen ts name port t all found = elim (Option-cases (Dict.lookup name ts)) [
  | inl absent ↦ lookup_nothing port t (rw (absent, tunnels_of) at found) (IsListening port t)
  | inr (tuns, there) ↦ all name port tuns t there (rw (there, tunnels_of) at found)
]

put_tunnel-AllListen :
    (name port : String) (tun : Tunnel) (ts : Tunnels)
    → IsListening port tun
    → AllListen ts
    → AllListen (put_tunnel name port tun ts)
unfolding put_tunnel
put_tunnel-AllListen name port tun ts listens all n p tuns t has found =
    elim (lookup-insert-cases n name _ tuns ts has) [
      | inr before ↦ all n p tuns t before found
      | inl (_, is) ↦
          elim (lookup-insert-cases p port tun t (tunnels_of name ts) (rw (← is) at found)) [
            | inl (same, this) ↦ rw (same, ← this) listens
            | inr before ↦ tunnels_of-AllListen ts name p t all before
          ]
    ]

module _ (e : Env) (name : String) where
  start_all-AllListen :
      (ipv4 : String) (portmaps : Dict String) (ports : List String) (ts : Tunnels) (w : World)
      → AllListen ts
      → AllListen (start_all name ipv4 portmaps ports ts e w).0.1
  unfolding start_all start
  start_all-AllListen ipv4 portmaps [] ts w all = all
  start_all-AllListen ipv4 portmaps (p ∷ ports) ts w all =
      let t = new_tunnel ipv4 p "localhost" (port_at p portmaps) in
      elim (Result-cases (e.answer w.trace (listen (local_address t)))) [
        | inr (x, failed) ↦ rw (failed, start_all) all
        | inl (ln, started) ↦
            let listens : IsListening p (record t { listener = some ln }) = record {
              own_port = refl;
              to_host = refl;
              listening = (ln, refl);
            } in
            rw (started, start_all)
              (start_all-AllListen ipv4 portmaps ports _ _
                (put_tunnel-AllListen name p _ ts listens all))
      ]

  setup_tunnels-AllListen :
      (ts : Tunnels) (w : World) → AllListen ts → AllListen (setup_tunnels name ts e w).0.1
  unfolding setup_tunnels
  setup_tunnels-AllListen ts w all = elim (Result-cases (prepare name e w).0) [
    | inr (x, failed) ↦ rw (failed, setup_tunnels) all
    | inl ((portmaps, ipv4), done) ↦
        rw (done, setup_tunnels) (start_all-AllListen ipv4 portmaps _ ts _ all)
  ]

-- A server without a tunnel manager has no tunnels.
abbrev pub ServerListens : Server → Type 0
ServerListens s = (ts : Tunnels) → s.tunnel_manager ≡ some ts → AllListen ts

module _ (e : Env) where
  ensure_tunnels-ServerListens :
      (s : Server) (name : String) (w : World)
      → ServerListens s
      → ServerListens (ensure_tunnels s name e w).0.1
  unfolding ensure_tunnels
  ensure_tunnels-ServerListens s name w each = elim (Option-cases s.tunnel_manager) [
    | inl without ↦ rw (without, ensure_tunnels) each
    | inr (ts, has) ↦
        rw (has, ensure_tunnels)
          (λ ts' is. rw (← some_same is) (setup_tunnels-AllListen e name ts w (each ts has)))
  ]
    where
      some_same : {a b : Tunnels} → some a ≡ some b → a ≡ b
      some_same p = cc

  module _ (cluster_name : String) (service : Service) where
    after_tunnels-ServerListens :
        (s : Server) (r : Result (Unit {0})) (w : World)
        → ServerListens s
        → ServerListens (after_tunnels cluster_name service s r e w).0.1
    unfolding after_tunnels
    after_tunnels-ServerListens s (err x) w each = each
    after_tunnels-ServerListens s (ok _) w each = each

    after_container-ServerListens :
        (s : Server) (r : Result (Unit {0})) (w : World)
        → ServerListens s
        → ServerListens (after_container cluster_name service s r e w).0.1
    unfolding after_container
    after_container-ServerListens s (err x) w each = each
    after_container-ServerListens s (ok _) w each =
        after_tunnels-ServerListens _ _ _ (ensure_tunnels-ServerListens s _ w each)

    pub ensure_load_balancer-ServerListens :
        (s : Server) (nodes : List Node) (w : World)
        → ServerListens s
        → ServerListens (ensure_load_balancer s cluster_name service nodes e w).0.1
    unfolding ensure_load_balancer
    ensure_load_balancer-ServerListens s nodes w each = after_container-ServerListens s _ _ each
