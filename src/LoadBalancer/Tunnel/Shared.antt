-- ===== src/LoadBalancer/Tunnel/Shared.antt =====
-- The tunnel manager under several goroutines at once: `setupTunnels` and `removeTunnels` in small
-- steps, with the mutex `mu`.
pub mod Exclusive
pub mod Under
pub mod Atomic
pub mod Alone
pub mod Progress
use cloud_provider_kind.Base.{String, ℕ, Bool, true, false, ◌≡◌, Option, none, some, List, [], ◌∷◌}
use cloud_provider_kind.Base.Dict
use cloud_provider_kind.Base.Dict.{Dict}
use cloud_provider_kind.Base.Family.{put}
use cloud_provider_kind.Container.{port_maps, ips}
use cloud_provider_kind.LoadBalancer.Tunnel.{
  Tunnel, Tunnels, new_tunnel, start, stop, put_tunnel, port_at, first_ip,
  add_ip_to_local_interface, remove_ip_from_local_interface,
}
use cloud_provider_kind.World.{Result, ok, err, Env, World, range}

-- Where a goroutine stands, with the local variables that are live there. The first five are those
-- of `setupTunnels` before its loop, then its loop; the next three are those of `removeTunnels`;
-- both end with the deferred `Unlock` and what they return.
pub data Pc : Type 0 where
  idle : Pc
  mapping : String → Pc
  addressing : String → Dict String → Pc
  adding : String → Dict String → String → Pc
  locking : String → Dict String → String → Pc
  starting : String → String → Dict String → List String → Pc
  removing : String → Pc
  stopping : Dict Tunnel → List String → String → Pc
  releasing : String → Pc
  unlocking : Result (Unit {0}) → Pc
  returned : Result (Unit {0}) → Pc

-- `mu`, as the goroutine that holds it; `tunnels`; and what all goroutines have called.
pub record Shared : Type 0 where
  pub owner : Option ℕ
  pub tunnels : Tunnels
  pub world : World

-- Where a goroutine goes on after a call, by what the call returned.
abbrev pub after_mapping : String → Result (Dict String) → Pc
after_mapping name (ok portmaps) = addressing name portmaps
after_mapping name (err x) = returned (err x)

abbrev pub after_addressing : String → Dict String → Result (String × String) → Pc
after_addressing name portmaps (ok (ipv4, ipv6)) = adding name portmaps ipv4
after_addressing name portmaps (err x) = returned (err x)

abbrev pub after_adding : String → Dict String → String → Result (Unit {0}) → Pc
after_adding name portmaps ipv4 (ok _) = locking name portmaps ipv4
after_adding name portmaps ipv4 (err x) = returned (err x)

-- The next step of the goroutine `i`: none if it has returned, or waits for the mutex.
unfoldable pub advance : Env → ℕ → Shared → Pc → Option (Shared × Pc)
advance e i s idle = none
advance e i s (mapping name) =
    let (r, w) = port_maps name e s.world in some (record s { world = w }, after_mapping name r)
advance e i s (addressing name portmaps) =
    let (r, w) = ips name e s.world in
    some (record s { world = w }, after_addressing name portmaps r)
advance e i s (adding name portmaps ipv4) =
    let (r, w) = add_ip_to_local_interface ipv4 e s.world in
    some (record s { world = w }, after_adding name portmaps ipv4 r)
advance e i s (locking name portmaps ipv4) = elim s.owner [
  | some j ↦ none
  | none ↦
      let (ports, w) = range (Dict.keys portmaps) e s.world in
      some (record s { owner = some i; world = w }, starting name ipv4 portmaps ports)
]
advance e i s (starting name ipv4 portmaps []) = some (s, unlocking (ok tt))
advance e i s (starting name ipv4 portmaps (port ∷ ports)) =
    let (r, w) = start (new_tunnel ipv4 port "localhost" (port_at port portmaps)) e s.world in
    elim r [
      | err x ↦ some (record s { world = w }, unlocking (err x))
      | ok tun ↦ some (
        record s { tunnels = put_tunnel name port tun s.tunnels; world = w },
        starting name ipv4 portmaps ports,
      )
    ]
advance e i s (removing name) = elim s.owner [
  | some j ↦ none
  | none ↦ elim (Dict.lookup name s.tunnels) [
    | none ↦ some (record s { owner = some i }, unlocking (ok tt))
    | some tuns ↦
        let (ports, w) = range (Dict.keys tuns) e s.world in
        some (record s { owner = some i; world = w }, stopping tuns ports "")
  ]
]
advance e i s (stopping tuns [] ip) = some (s, releasing ip)
advance e i s (stopping tuns (port ∷ ports) ip) = elim (Dict.lookup port tuns) [
  | none ↦ some (s, stopping tuns ports ip)
  | some t ↦
      let (_, w) = stop t e s.world in
      some (record s { world = w }, stopping tuns ports (first_ip ip t))
]
advance e i s (releasing ip) =
    let (r, w) = remove_ip_from_local_interface ip e s.world in
    some (record s { world = w }, unlocking r)
advance e i s (unlocking r) = some (record s { owner = none }, returned r)
advance e i s (returned r) = none

pub record Managing : Type 0 where
  pub shared : Shared
  pub pc : ℕ → Pc

-- A goroutine that is at rest calls one of the two, or any of them makes its next step. What the
-- rest of the program calls in between shows in the trace only.
pub data Step (e : Env) (s : Managing) : Managing → Type 0 where
  sets_up :
      (i : ℕ) (name : String)
      → s.pc i ≡ idle
      → Step e s (record s { pc = put i (mapping name) s.pc })
  removes :
      (i : ℕ) (name : String)
      → s.pc i ≡ idle
      → Step e s (record s { pc = put i (removing name) s.pc })
  ends :
      (i : ℕ) (r : Result (Unit {0}))
      → s.pc i ≡ returned r
      → Step e s (record s { pc = put i idle s.pc })
  moves :
      (i : ℕ) (m : Shared) (p : Pc)
      → advance e i s.shared (s.pc i) ≡ some (m, p)
      → Step e s (record { shared = m; pc = put i p s.pc })
  meanwhile : (w : World) → Step e s (record s { shared = record (s.shared) { world = w } })

-- `NewTunnelManager`, before any goroutine has called it.
abbrev pub init : World → Managing
init w = record { shared = record { owner = none; tunnels = []; world = w }; pc = λ _. idle }

pub data Reach (e : Env) (w : World) : Managing → Type 0 where
  here : Reach e w (init w)
  later : {s u : Managing} → Reach e w s → Step e s u → Reach e w u

-- Between `Lock` and `Unlock`.
abbrev pub critical : Pc → Bool
critical (starting name ipv4 portmaps ports) = true
critical (stopping tuns ports ip) = true
critical (releasing ip) = true
critical (unlocking r) = true
critical _ = false
