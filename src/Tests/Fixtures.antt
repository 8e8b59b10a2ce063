-- ===== src/Tests/Fixtures.antt =====
-- A small cluster, and a container runtime that answers by what was called before.
use mathlib.Core.List.Perm
use text.Mathlib.TextLemmas.{append-nil}
use Prim.Native.String.append
use cloud_provider_kind.Base.{
  String, ◌<>◌, ℕ, zero, suc, ◌==◌, string_eq, if◌then◌else◌, Bool, true, false, Option, none, some,
  List, [], ◌∷◌, ◌≡◌, ◌≢◌, refl, sym, ap, ◌∙◌, arith, ==-self, inl, inr, Option-cases,
}
use cloud_provider_kind.Api.{Service, SpecPort, Node, NodeAddress}
use cloud_provider_kind.Base.Dict.{Dict}
use cloud_provider_kind.Config.{zero_config}
use cloud_provider_kind.LoadBalancer.Server.Running.{
  Runtime, Contains, IsAlone, IsRead, ps, inspect, environ, rm_call, run_call,
}
use cloud_provider_kind.World.{
  Err, errorf, ok, Output, Action, Answer, Trace, PortMapping, Net, other, Env, World, run,
  run_to_file, output_lines, get_env, create_file, listen, close, http_get, poll_budget,
  list_clusters, list_nodes, kube_config, sleep, ctx_done, done_within, rest_config, kube_client,
  healthz, feature_gates, service_controller, run_service_controller, node_controller,
  run_node_controller, start_informers, cancel, mkdir_temp, is_missing, mkdir_all, read_file,
  accept, dial, copy, get_euid, detect_node_provider,
}

abbrev pub web : SpecPort
web = record { port = 80; node_port = 30080; protocol = "TCP" }

abbrev pub dns : SpecPort
dns = record { port = 53; node_port = 30053; protocol = "UDP" }

abbrev pub service : Service
service = record {
  namespace = "default";
  name = "web";
  ports = web ∷ dns ∷ [];
  ip_families = "IPv4" ∷ [];
  session_affinity = "None";
  external_traffic_policy = "Cluster";
  health_check_node_port = 0;
  load_balancer_source_ranges = "10.0.0.0/8" ∷ [];
}

abbrev pub address : NodeAddress
address = record { kind = "InternalIP"; address = "192.168.8.2" }

abbrev pub node : Node
node = record {
  name = "kind-worker";
  addresses = record { kind = "Hostname"; address = "kind-worker" } ∷ address ∷ [];
}

abbrev pub net : Net
net = record {
  is_ipv4_string = λ a. a == "192.168.8.2";
  is_ipv6_string = λ a. a == "fc00::2";
  parse_cidr = λ range. if range == "10.0.0.0/8" then some ("10.0.0.0", 8) else none;
}

abbrev pub mappings : Dict (List PortMapping)
mappings =
    ("80/tcp", record { host_port = "32768"; host_ip = "0.0.0.0" } ∷ [])
    ∷ ("80/udp", record { host_port = "32769"; host_ip = "0.0.0.0" } ∷ [])
    ∷ ("10000/tcp", record { host_port = "32770"; host_ip = "0.0.0.0" } ∷ [])
    ∷ []

unfoldable pub word : ℕ → List String → String
word n [] = ""
word zero (w ∷ ws) = w
word (suc n) (w ∷ ws) = word n ws

-- What a call makes of the container that a filter names.
unfoldable pub change : Action → String → Option Bool
change (run (rt ∷ verb ∷ flag ∷ name ∷ args) stdin) filter =
    if verb == "run"
    then (if "name=" <> name == filter then some true else none)
    else if verb == "rm"
    then (if "name=" <> name == filter then some false else none)
    else none
change _ filter = none

-- At first all containers are there, and none runs.
unfoldable pub after : Bool → Trace → String → Bool
unfolding change
after b [] filter = b
after b (a ∷ h) filter = elim (change a filter) [ none ↦ after b h filter | some now ↦ now ]

abbrev pub fails_unless : Bool → Option Err
fails_unless b = if b then none else some (errorf "exit status 1")

unfoldable pub ran : Trace → List String → Output
unfolding word after
ran h argv =
    if word 1 argv == "ps"
    then record {
      stdout = if after false h (word 4 argv) then "0123456789ab\n" else "";
      stderr = "";
      error = none;
    }
    else if word 1 argv == "inspect"
    then record {
      stdout = "";
      stderr = "";
      error = fails_unless (after true h ("name=" <> word 2 argv));
    }
    else record { stdout = ""; stderr = ""; error = none }

unfoldable pub inspected : List String → List String
unfolding word
inspected argv =
    if word 2 argv == "--format"
    then "kind/default/web" ∷ []
    else if word 3 argv == "{{ json .NetworkSettings.Ports }}"
    then "{}" ∷ []
    else "192.168.8.9," ∷ []

abbrev pub answer : Trace → (a : Action) → Answer a
answer h (run argv stdin) = ran h argv
answer h (run_to_file argv file) = none
answer h (output_lines argv) = (inspected argv, none)
answer h (get_env name) = ""
answer h (create_file name) = none
answer h (listen local) = ok 7
answer h (close handle) = none
answer h (accept handle) = ok 8
answer h (dial local) = ok 9
answer h (copy to_handle from_handle) = tt
answer h (http_get url) = ok (record { status_code = 200; body = ok "LIVE\n" })
answer h (poll_budget interval timeout) = 3
answer h list_clusters = ("kind" ∷ [], none)
answer h (list_nodes cluster) =
    ok (record { name = "kind-worker"; ip = ok ("192.168.8.2", "") } ∷ [])
answer h (kube_config cluster internal) = ok "kubeconfig"
answer h (sleep seconds) = tt
answer h ctx_done = false
answer h (done_within seconds) = false
answer h (rest_config kconfig) = ok "https://127.0.0.1:6443"
answer h (kube_client host) = none
answer h (healthz host) = 200
answer h feature_gates = none
answer h (service_controller cluster) = none
answer h (run_service_controller cluster) = tt
answer h (node_controller cluster) = none
answer h (run_node_controller cluster) = tt
answer h (start_informers cluster) = tt
answer h (cancel cluster) = tt
answer h mkdir_temp = ok "/tmp/logs"
answer h (is_missing dir) = true
answer h (mkdir_all dir) = none
answer h (read_file file) = ok "Linux version 6.1"
answer h get_euid = 1000
answer h detect_node_provider = none

abbrev pub env : Env
env = record {
  platform = other;
  runtime = "docker";
  answer = answer;
  unmarshal_ports = λ line. ok mappings;
  net = net;
  order = λ h keys. keys;
  order-perm = λ h keys. Perm.refl keys;
}

abbrev pub world : World
world = record { trace = []; config = zero_config; once_done = false }

abbrev pub live : Trace → String → Bool
live h name = after false h ("name=" <> name)

abbrev pub present : Trace → String → Bool
present h name = after true h ("name=" <> name)

after_mono :
    (h : Trace) (filter : String) → after false h filter ≡ true → after true h filter ≡ true
unfolding after
after_mono [] filter up = refl
after_mono (a ∷ h) filter up = elim (Option-cases (change a filter)) [
  | inl nothing ↦ rw (nothing, after) (after_mono h filter (rw (nothing, after) at up))
  | inr (now, changed) ↦ rw (changed, after) (rw (changed, after) at up)
]

ps-none : (b : Bool) → (b ≡ true → ⊥) → ◌≡◌ {A = String} (if b then "0123456789ab\n" else "") ""
ps-none true h = absurd (h refl)
ps-none false h = refl

fails_unless-true : (b : Bool) → b ≡ true → fails_unless b ≡ none
fails_unless-true b h = rw h refl

fails_unless-false : (b : Bool) → b ≡ false → fails_unless b ≢ none
fails_unless-false true h is = absurd (cc)
fails_unless-false false h is = absurd (cc)

self-Contains : (name : String) → Contains name name
self-Contains name = ("", "", sym (append.nil (name <> "") ∙ append-nil name))

read-after :
    (b : Bool) (h : Trace) (a : Action) (filter : String)
    → IsRead "docker" a
    → after b (a ∷ h) filter ≡ after b h filter
unfolding change after string_eq
read-after b h _ filter (ps name) = refl
read-after b h _ filter (inspect name) = refl
read-after b h _ filter (environ name) = refl

change-run :
    (name : String) (args : List String)
    → change (run_call "docker" name args) ("name=" <> name) ≡ some true
unfolding change string_eq
change-run name args =
    ap (λ (b : Bool). if b then some true else none) (==-self {A = String} ("name=" <> name))

change-rm : (name : String) → change (rm_call "docker" name) ("name=" <> name) ≡ some false
unfolding change string_eq
change-rm name =
    ap (λ (b : Bool). if b then some false else none) (==-self {A = String} ("name=" <> name))

run-live :
    (h : Trace) (name : String) (args : List String)
    → live (run_call "docker" name args ∷ h) name ≡ true
unfolding after
run-live h name args = rw (change-run name args, after) refl

rm-present : (h : Trace) (name : String) → present (rm_call "docker" name ∷ h) name ≡ false
unfolding after
rm-present h name = rw (change-rm name, after) refl

pub runtime : Runtime env
unfolding ran word string_eq
runtime = record {
  present = present;
  live = live;
  live-present = λ h name. after_mono h ("name=" <> name);
  ps_finds_none =
      λ h name nobody. ps-none (live h name) (λ up. nobody name up (self-Contains name));
  inspect_finds = λ h name there. fails_unless-true (present h name) there;
  inspect_fails = λ h name gone. fails_unless-false (present h name) gone;
  read_keeps_live = λ h a name. read-after false h a ("name=" <> name);
  read_keeps_present = λ h a name. read-after true h a ("name=" <> name);
  rm_lem = λ h name done. rm-present h name;
  run_lem = λ h name args done. run-live h name ("--detach" ∷ args);
}

-- At first nothing runs.
pub runtime-IsAlone : (name : String) → IsAlone runtime world.trace name
unfolding after runtime
runtime-IsAlone name n up c = absurd (ground arith)
