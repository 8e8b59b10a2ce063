-- ===== src/Tests/Tunnels.antt =====
-- Tunnels on a host whose addresses can be listened on once.
use cloud_provider_kind.Base.{
  String, ℕ, ◌==◌, ==-self, ◌≡◌, ◌≢◌, refl, ne_of_==, string_eq, char_eq, if◌then◌else◌, Bool,
  Bool-cases, true, false, ◌||◌, ◌++◌, arith, some, none, [], ◌∷◌, inl, inr, In,
}
use cloud_provider_kind.Base.Dict
use cloud_provider_kind.Base.Dict.{Dict}
use cloud_provider_kind.Base.Text.{join_host_port, split, to_lower}
use cloud_provider_kind.Container.{ips, port_maps, add_port, protocol_of, port_of}
use cloud_provider_kind.LoadBalancer.Tunnel.{
  Tunnel, Tunnels, prepare, setup_tunnels, add_ip_command, remove_tunnels, remove_ip_command,
}
use cloud_provider_kind.LoadBalancer.Tunnel.Busy.{
  Sockets, IsSetUp, listens, runs, reads, second_setup_fails,
}
use cloud_provider_kind.LoadBalancer.Tunnel.Stopped.{IsAt, remove_tunnels_lem}
use cloud_provider_kind.Tests.Fixtures.{env, world, answer, ran, inspected}
use cloud_provider_kind.World.{Err, errorf, ok, err, Trace, Action, Answer, run, listen, close, Env}

unfoldable taken : Trace → String → Bool
taken [] a = false
taken (listen b ∷ h) a = a == b || taken h a
taken (close handle ∷ h) a = false
taken (b ∷ h) a = taken h a

once_answer : Trace → (a : Action) → Answer a
unfolding taken
once_answer h (listen a) = if taken h a then err (errorf "address already in use") else ok 7
once_answer h a = answer h a

abbrev host : Env
host = record env { answer = once_answer }

taken-listen : (h : Trace) (a : String) → taken (listen a ∷ h) a ≡ true
unfolding taken
taken-listen h a = rw (==-self {A = String} a)

taken-busy :
    (h : Trace) (a : String) → taken h a ≡ true → (x : Err) × (once_answer h (listen a) ≡ err x)
unfolding once_answer
taken-busy h a b = (errorf "address already in use", rw b)

taken-stays :
    (h : Trace) (b : Action) (a : String) → IsSetUp b → taken h a ≡ true → taken (b ∷ h) a ≡ true
unfolding taken
taken-stays h _ a (listens c) t = ground (arith, t)
taken-stays h _ a (runs argv stdin) t = t
taken-stays h _ a (reads argv) t = t

sockets : Sockets host
sockets = record {
  bound = taken;
  listen_bound = λ h a ln _. taken-listen h a;
  listen_busy = taken-busy;
  stays_bound = taken-stays;
}

abbrev pub published : Dict String
published = ("80", "32769") ∷ ("10000", "32770") ∷ []

is_up : (setup_tunnels "web" [] host world).0.0 ≡ ok tt
unfolding setup_tunnels once_answer inspected ran port_maps string_eq ips split char_eq
    add_ip_command Dict.keys add_port protocol_of to_lower Dict.lookup Dict.insert port_of
    join_host_port
is_up = refl

is_prepared : (prepare "web" host world).0 ≡ ok (published, "192.168.8.9")
unfolding prepare once_answer inspected ran port_maps string_eq ips split char_eq add_ip_command
    Dict.keys add_port protocol_of to_lower Dict.lookup Dict.insert port_of
is_prepared = refl

is_prepared_again :
    (prepare "web" host (setup_tunnels "web" [] host world).1).0 ≡ ok (published, "192.168.8.9")
unfolding prepare setup_tunnels once_answer inspected ran port_maps string_eq ips split char_eq
    add_ip_command Dict.keys add_port protocol_of to_lower Dict.lookup Dict.insert port_of
is_prepared_again = refl

has_80 : Dict.lookup "80" published ≡ some "32769"
unfolding Dict.lookup string_eq
has_80 = refl

second_setup_fails_example :
    (x : Err) × ((setup_tunnels "web" [] host (setup_tunnels "web" [] host world).1).0.0 ≡ err x)
second_setup_fails_example =
    second_setup_fails host sockets "web" "192.168.8.9" "80" "32769" "32769" published published []
      [] world is_up is_prepared has_80 is_prepared_again has_80

abbrev pub up : Tunnel
up = record {
  listener = some 7;
  local_ip = "192.168.8.9";
  local_port = "80";
  remote_ip = "localhost";
  remote_port = "32769";
}

abbrev pub started : Dict Tunnel
started = ("80", up) ∷ []

abbrev pub web_tunnels : Tunnels
web_tunnels = ("web", started) ∷ []

has_web : Dict.lookup "web" web_tunnels ≡ some started
unfolding Dict.lookup string_eq
has_web = refl

pub has_port : Dict.lookup "80" started ≡ some up
unfolding Dict.lookup string_eq
has_port = refl

pub started-IsAt : IsAt "192.168.8.9" started
unfolding Dict.lookup
started-IsAt port t found = elim (Bool-cases (port == "80")) [
  | inl same ↦ let is : some up ≡ some t = rw same at found in is_at is
  | inr other ↦ let wrong : none ≡ some t = rw other at found in absurd (cc)
]
  where
    is_at : some up ≡ some t → t.local_ip ≡ "192.168.8.9"
    is_at p = let same : up ≡ t = cc in rw (← same) refl

pub is_an_address : ◌≢◌ {A = String} "192.168.8.9" ""
unfolding string_eq
is_an_address = ne_of_== {A = String} "192.168.8.9" "" refl

remove_tunnels_lem_example :
    (calls : Trace) × ((p : String) (u : Tunnel) (ln : ℕ)
      → Dict.lookup p started ≡ some u
      → u.listener ≡ some ln
      → In (close ln) calls)
    × ((remove_tunnels "web" web_tunnels env world).1.trace
        ≡ run (remove_ip_command env.platform "192.168.8.9") none ∷ (calls ++ world.trace))
remove_tunnels_lem_example =
    remove_tunnels_lem "web" "80" "192.168.8.9" up started web_tunnels env world has_web has_port
      started-IsAt is_an_address
