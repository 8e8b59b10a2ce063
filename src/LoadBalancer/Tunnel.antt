-- ===== src/LoadBalancer/Tunnel.antt =====
-- pkg/loadbalancer/tunnel.go: listeners on the host that forward to the published ports of a
-- container. Here each loop is one step; Shared has the mutex and the steps under it.
pub mod Started
pub mod Stopped
pub mod Busy
pub mod Forward
pub mod Shared
use cloud_provider_kind.Base.{
  String, ℕ, ◌==◌, string_eq, if◌then◌else◌, Option, none, some, List, [], ◌∷◌,
}
use cloud_provider_kind.Base.Dict
use cloud_provider_kind.Base.Dict.{Dict}
use cloud_provider_kind.Base.Text.{join_host_port}
use cloud_provider_kind.Container.{port_maps, ips}
use cloud_provider_kind.LoadBalancer.Address.{
  add_ip_on_darwin, add_ip_on_windows, add_ip_on_other, remove_ip_on_darwin, remove_ip_on_windows,
  remove_ip_on_other,
}
use cloud_provider_kind.World.{
  Err, Result, ok, err, Platform, darwin, windows, other, Env, World, run, listen, close, Proc,
  perform, range, pure, lift, check, ◌>>=◌, ◌>>◌,
}

-- The command of `AddIPToLocalInterface`, and that of `RemoveIPFromLocalInterface`.
unfoldable pub add_ip_command : Platform → String → List String
add_ip_command darwin ip = add_ip_on_darwin ip
add_ip_command windows ip = add_ip_on_windows ip
add_ip_command other ip = add_ip_on_other ip

unfoldable pub remove_ip_command : Platform → String → List String
remove_ip_command darwin ip = remove_ip_on_darwin ip
remove_ip_command windows ip = remove_ip_on_windows ip
remove_ip_command other ip = remove_ip_on_other ip

abbrev platform : Proc Platform
platform e w = (e.platform, w)

unfoldable pub add_ip_to_local_interface : String → Proc (Result (Unit {0}))
add_ip_to_local_interface ip = do
  p ← lift platform
  out ← lift (perform (run (add_ip_command p ip) none))
  λ e w. (check out.error, w)

unfoldable pub remove_ip_from_local_interface : String → Proc (Result (Unit {0}))
remove_ip_from_local_interface ip = do
  p ← lift platform
  out ← lift (perform (run (remove_ip_command p ip) none))
  λ e w. (check out.error, w)

-- A tunnel listens on the local address and forwards to the remote one.
pub record Tunnel : Type 0 where
  pub listener : Option ℕ
  pub local_ip : String
  pub local_port : String
  pub remote_ip : String
  pub remote_port : String

abbrev pub new_tunnel : String → String → String → String → Tunnel
new_tunnel local_ip local_port remote_ip remote_port = record {
  listener = none;
  local_ip = local_ip;
  local_port = local_port;
  remote_ip = remote_ip;
  remote_port = remote_port;
}

abbrev pub local_address : Tunnel → String
local_address t = join_host_port t.local_ip t.local_port

-- `Start`, up to the goroutine that accepts connections.
unfoldable pub start : Tunnel → Proc (Result Tunnel)
start t = do ln ← perform (listen (local_address t)); pure (record t { listener = some ln })

-- `Stop`
unfoldable pub stop : Tunnel → Proc (Result (Unit {0}))
stop t = elim t.listener [
  | none ↦ pure tt
  | some ln ↦ do error ← lift (perform (close ln)); λ e w. (check error, w)
]

-- `tunnels`: the first key is the name of the container, the second is the port.
abbrev pub Tunnels : Type 0
Tunnels = Dict (Dict Tunnel)

abbrev pub tunnels_of : String → Tunnels → Dict Tunnel
tunnels_of name ts = elim (Dict.lookup name ts) [ none ↦ [] | some inner ↦ inner ]

-- `t.tunnels[containerName][containerPort] = tun`, which makes the inner map where there is none.
unfoldable pub put_tunnel : String → String → Tunnel → Tunnels → Tunnels
put_tunnel name port tun ts = Dict.insert name (Dict.insert port tun (tunnels_of name ts)) ts

abbrev pub port_at : String → Dict String → String
port_at port portmaps = elim (Dict.lookup port portmaps) [ none ↦ "" | some host_port ↦ host_port ]

-- The loop of `setupTunnels`. It returns at the first tunnel that does not start, and the tunnels
-- before it stay.
unfoldable pub start_all :
    String → String → Dict String → List String → Tunnels → Proc (Result (Unit {0}) × Tunnels)
unfolding start put_tunnel
start_all name ipv4 portmaps [] ts e w = ((ok tt, ts), w)
start_all name ipv4 portmaps (port ∷ ports) ts e w =
    let (r, w') = start (new_tunnel ipv4 port "localhost" (port_at port portmaps)) e w in
    elim r [
      | err x ↦ ((err x, ts), w')
      | ok tun ↦ start_all name ipv4 portmaps ports (put_tunnel name port tun ts) e w'
    ]

-- What `setupTunnels` reads and sets up before the loop.
unfoldable pub prepare : String → Proc (Result (Dict String × String))
unfolding add_ip_to_local_interface
prepare name = do
  portmaps ← port_maps name
  both ← ips name
  add_ip_to_local_interface both.0
  pure (portmaps, both.0)

unfoldable pub setup_tunnels : String → Tunnels → Proc (Result (Unit {0}) × Tunnels)
unfolding prepare start_all
setup_tunnels name ts e w =
    let (r, w') = prepare name e w in
    elim r [
      | err x ↦ ((err x, ts), w')
      | ok (portmaps, ipv4) ↦
          let (ports, w'') = range (Dict.keys portmaps) e w' in
          start_all name ipv4 portmaps ports ts e w''
    ]

abbrev pub first_ip : String → Tunnel → String
first_ip ip t = if ip == "" then t.local_ip else ip

-- The loop of `removeTunnels`: stops each tunnel, whether or not that fails, and returns the local
-- address of the first one.
unfoldable pub stop_all : Dict Tunnel → List String → String → Proc String
unfolding stop
stop_all tuns [] ip e w = (ip, w)
stop_all tuns (port ∷ ports) ip e w = elim (Dict.lookup port tuns) [
  | none ↦ stop_all tuns ports ip e w
  | some t ↦ let (r, w') = stop t e w in stop_all tuns ports (first_ip ip t) e w'
]

-- The map is left as it is: the stopped tunnels stay in it.
unfoldable pub remove_tunnels : String → Tunnels → Proc (Result (Unit {0}))
unfolding stop_all remove_ip_from_local_interface
remove_tunnels name ts = elim (Dict.lookup name ts) [
  | none ↦ pure tt
  | some tuns ↦ do
    ports ← lift (range (Dict.keys tuns))
    ip ← lift (stop_all tuns ports "")
    remove_ip_from_local_interface ip
]
