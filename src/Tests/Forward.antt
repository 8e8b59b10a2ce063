-- ===== src/Tests/Forward.antt =====
-- One connection through a tunnel.
use cloud_provider_kind.Base.{ℕ, ◌≡◌, refl, nat_eq, true, false, some, [], ◌∷◌, In, inl, inr}
use cloud_provider_kind.Base.Family.{put}
use cloud_provider_kind.LoadBalancer.Tunnel.{Tunnel}
use cloud_provider_kind.LoadBalancer.Tunnel.Forward.{
  Stage, accepted, copying, returned, remote_address, Handle, dials, to_client, to_server, returns,
  Serving, accepts, handles, init, Reach, start, later,
}
use cloud_provider_kind.LoadBalancer.Tunnel.Forward.Owned.{IsOwn, Reach-IsOwn}
use cloud_provider_kind.LoadBalancer.Tunnel.Forward.Served.{closes_last}
use cloud_provider_kind.Tests.Fixtures.{env}
use cloud_provider_kind.World.{Action, accept, dial, copy, close}

abbrev web : Tunnel
web = record {
  listener = some 7;
  local_ip = "192.168.8.9";
  local_port = "80";
  remote_ip = "localhost";
  remote_port = "32769";
}

-- The state in which the first connection is at a stage, after a call.
abbrev next : Serving → Action → Stage → Serving
next s a st = record s { stage = put 0 st s.stage; calls = a ∷ s.calls }

abbrev opened : Serving
opened = record {
  accepting = true;
  opened = 1;
  stage = put 0 (accepted 8) init.stage;
  calls = accept 7 ∷ [];
}

abbrev dialled : Serving
dialled = next opened (dial (remote_address web)) (copying 8 9 false false)

abbrev received : Serving
received = next dialled (copy 8 9) (copying 8 9 true false)

abbrev sent : Serving
sent = next received (copy 9 8) (copying 8 9 true true)

abbrev done : Serving
done = next sent (close 9) (returned 8 9)

done-Reach : Reach env web 7 done
unfolding put nat_eq
done-Reach =
    later
      (later
        (later (later (later start (accepts [] 8 refl refl)) (handles 0 _ _ (dials [] 8 9 refl)))
          (handles 0 _ _ (to_client 8 9 false)))
        (handles 0 _ _ (to_server 8 9 true)))
      (handles 0 _ _ (returns 8 9))

sent-Reach : Reach env web 7 sent
unfolding put nat_eq
sent-Reach =
    later
      (later (later (later start (accepts [] 8 refl refl)) (handles 0 _ _ (dials [] 8 9 refl)))
        (handles 0 _ _ (to_client 8 9 false)))
      (handles 0 _ _ (to_server 8 9 true))

last_step : Handle env web (sent.stage 0) (close 9) (returned 8 9)
unfolding put nat_eq
last_step = returns 8 9

closes_last_example :
    (local remote : ℕ) × (sent.stage 0 ≡ copying local remote true true)
    × (9 ≡ remote)
    × (returned 8 9 ≡ returned local remote)
    × In (dial (remote_address web)) sent.calls
    × In (copy local remote) sent.calls
    × In (copy remote local) sent.calls
closes_last_example = closes_last env web 7 sent 0 9 (returned 8 9) sent-Reach last_step

is_called : In (copy 8 9) done.calls
is_called = inr (inr (inl refl))

Reach-IsOwn_example : IsOwn web 7 done.stage (copy 8 9)
Reach-IsOwn_example = Reach-IsOwn env web 7 done (copy 8 9) done-Reach is_called
