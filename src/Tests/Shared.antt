-- ===== src/Tests/Shared.antt =====
-- Two goroutines on the tunnel manager: one sets up the tunnels of a container, while the other
-- waits to remove those of another.
use cloud_provider_kind.Base.{
  String, ℕ, nat_eq, string_eq, char_eq, true, ◌≡◌, ◌≢◌, refl, ◌⊎◌, some, none, Option, List, [],
  ◌∷◌, ◌++◌, All,
}
use cloud_provider_kind.Base.Dict
use cloud_provider_kind.Base.Dict.{Dict}
use cloud_provider_kind.Base.Family.{put}
use cloud_provider_kind.Base.Text.{split, to_lower}
use cloud_provider_kind.Container.{ips, port_maps, add_port, protocol_of, port_of}
use cloud_provider_kind.LoadBalancer.Tunnel.{
  Tunnel, Tunnels, new_tunnel, start, put_tunnel, add_ip_command, add_ip_to_local_interface,
  setup_tunnels, remove_tunnels,
}
use cloud_provider_kind.LoadBalancer.Tunnel.Shared.{
  Pc, mapping, addressing, adding, locking, starting, removing, unlocking, Shared, advance,
  Managing, sets_up, removes, moves, init, Reach, here, later,
}
use cloud_provider_kind.LoadBalancer.Tunnel.Shared.Alone.{
  alone, free, finished, outcome, alone_is_sequential,
}
use cloud_provider_kind.LoadBalancer.Tunnel.Shared.Atomic.{Held, still, goes_on, setup_is_atomic}
use cloud_provider_kind.LoadBalancer.Tunnel.Shared.Progress.{
  waiting, Locks, Releases, mutex_is_available,
}
use cloud_provider_kind.LoadBalancer.Tunnel.Shared.Under.{IsListening, put_all}
use cloud_provider_kind.Tests.Fixtures.{env, world, ran, inspected}
use cloud_provider_kind.Tests.Tunnels.{published, web_tunnels}
use cloud_provider_kind.World.{Result, ok, World}

abbrev at_lock : World
at_lock =
    (add_ip_to_local_interface "192.168.8.9" env (ips "web" env (port_maps "web" env world).1).1).1

abbrev of_80 : Tunnel
of_80 = record (new_tunnel "192.168.8.9" "80" "localhost" "32769") { listener = some 7 }

abbrev of_10000 : Tunnel
of_10000 = record (new_tunnel "192.168.8.9" "10000" "localhost" "32770") { listener = some 7 }

-- The world after the first tunnel has started, and after the second.
abbrev one_started : World
one_started = (start (new_tunnel "192.168.8.9" "80" "localhost" "32769") env at_lock).1

abbrev both_started : World
both_started = (start (new_tunnel "192.168.8.9" "10000" "localhost" "32770") env one_started).1

abbrev shared_at : Option ℕ → Tunnels → World → Shared
shared_at owner ts w = record { owner = owner; tunnels = ts; world = w }

abbrev with' : Managing → ℕ → Shared → Pc → Managing
with' s i m p = record { shared = m; pc = put i p s.pc }

abbrev called : Managing
called = with' (init world) 0 (init world).shared (mapping "web")

abbrev mapped : Managing
mapped =
    with' called 0 (shared_at none [] (port_maps "web" env world).1) (addressing "web" published)

abbrev addressed : Managing
addressed =
    with' mapped 0 (shared_at none [] (ips "web" env (port_maps "web" env world).1).1)
      (adding "web" published "192.168.8.9")

abbrev added : Managing
added = with' addressed 0 (shared_at none [] at_lock) (locking "web" published "192.168.8.9")

abbrev locked : Managing
locked =
    with' added 0 (shared_at (some 0) [] at_lock)
      (starting "web" "192.168.8.9" published ("80" ∷ "10000" ∷ []))

-- The other goroutine comes in between.
abbrev contended : Managing
contended = with' locked 1 locked.shared (removing "api")

abbrev halfway : Managing
halfway =
    with' contended 0 (shared_at (some 0) (put_tunnel "web" "80" of_80 []) one_started)
      (starting "web" "192.168.8.9" published ("10000" ∷ []))

abbrev complete : Tunnels
complete = put_tunnel "web" "10000" of_10000 (put_tunnel "web" "80" of_80 [])

abbrev all_up : Managing
all_up =
    with' halfway 0 (shared_at (some 0) complete both_started)
      (starting "web" "192.168.8.9" published [])

abbrev at_unlock : Managing
at_unlock = with' all_up 0 (shared_at (some 0) complete both_started) (unlocking (ok tt))

locked-Reach : Reach env world locked
unfolding put nat_eq advance inspected ran port_maps string_eq ips split char_eq add_ip_command
    Dict.keys add_port protocol_of to_lower Dict.lookup Dict.insert port_of
    add_ip_to_local_interface
locked-Reach =
    later
      (later
        (later (later (later here (sets_up 0 "web" refl)) (moves 0 _ _ refl)) (moves 0 _ _ refl))
        (moves 0 _ _ refl))
      (moves 0 _ _ refl)

locked-Held : Held env 0 locked at_unlock
unfolding put nat_eq advance start string_eq Dict.lookup add_ip_to_local_interface
locked-Held =
    goes_on
      (goes_on (goes_on (goes_on still (removes 1 "api" refl) refl) (moves 0 _ _ refl) refl)
        (moves 0 _ _ refl) refl)
      (moves 0 _ _ refl) refl

is_locked : locked.pc 0 ≡ starting "web" "192.168.8.9" published ("80" ∷ "10000" ∷ [])
unfolding put nat_eq
is_locked = refl

is_at_unlock : at_unlock.pc 0 ≡ unlocking (ok tt)
unfolding put nat_eq
is_at_unlock = refl

setup_is_atomic_example :
    (done : Dict Tunnel) × ((left : List String) × ("80" ∷ "10000" ∷ [] ≡ Dict.keys done ++ left)
      × All (IsListening "192.168.8.9" published) done
      × (at_unlock.shared.tunnels ≡ put_all "web" done locked.shared.tunnels)
      × (◌≡◌ {A = Result (Unit {0})} (ok tt) (ok tt) → left ≡ []))
setup_is_atomic_example =
    setup_is_atomic env world 0 locked at_unlock "web" "192.168.8.9" published ("80" ∷ "10000" ∷ [])
      (ok tt) locked-Reach is_locked locked-Held is_at_unlock

contended-Reach : Reach env world contended
unfolding put nat_eq
contended-Reach = later locked-Reach (removes 1 "api" refl)

waits : waiting (contended.pc 1) ≡ true
unfolding put nat_eq
waits = refl

mutex_is_available_example :
    ((contended.shared.owner ≡ none) × Locks env 1 contended.shared (contended.pc 1))
    ⊎ ((i : ℕ) × (i ≢ 1)
        × (contended.shared.owner ≡ some i)
        × Releases env i contended.shared (contended.pc i))
mutex_is_available_example = mutex_is_available env world contended 1 contended-Reach waits

alone_is_sequential_example :
    ((n : ℕ) × (alone n env 0 (free web_tunnels world) (mapping "web")
        ≡ outcome (setup_tunnels "web" web_tunnels env world)))
    × ((n : ℕ) × (alone n env 0 (free web_tunnels world) (removing "web")
          ≡ finished web_tunnels
              (remove_tunnels "web" web_tunnels env world).1
              (remove_tunnels "web" web_tunnels env world).0))
alone_is_sequential_example = alone_is_sequential env 0 "web" web_tunnels world
