-- ===== src/World/Actions.antt =====
-- Errors, the calls that leave the process, and the environment that answers them.
use mathlib.Core.List.{Perm}
use cloud_provider_kind.Base.{String, ◌<>◌, ℕ, Bool, true, false, ◌||◌, Option, List}
use cloud_provider_kind.Base.Dict.{Dict}
use cloud_provider_kind.Config.{Config}

-- A Go `error`. The text of `wrapf s e` is `s` with the text of `e` behind it: `%w` at the end of
-- a format, or `errors.Wrap`. An error from outside the program is an `errorf` too.
pub data Err : Type 0 where
  errorf : String → Err
  wrapf : String → Err → Err
  join : Err → Err → Err
  err_node_not_found : Err

-- `err.Error()`
abbrev pub error_text : Err → String
error_text (errorf s) = s
error_text (wrapf s e) = s <> error_text e
error_text (join e f) = error_text e <> ("\n" <> error_text f)
error_text err_node_not_found = "node not found"

-- `errors.Is(err, errNodeNotFound)`
abbrev pub is_node_not_found : Err → Bool
is_node_not_found (errorf s) = false
is_node_not_found (wrapf s e) = is_node_not_found e
is_node_not_found (join e f) = is_node_not_found e || is_node_not_found f
is_node_not_found err_node_not_found = true

-- What a function returns with an `error`.
pub data Result {ℓ} (A : Type ℓ) : Type ℓ where
  ok : A → Result A
  err : Err → Result A

-- What a command wrote, and how it ended.
pub record Output : Type 0 where
  pub stdout : String
  pub stderr : String
  pub error : Option Err

pub record Response : Type 0 where
  pub status_code : ℕ
  pub body : Result String

-- A node of the kind cluster: its name, and what its `IP()` returns.
pub record KindNode : Type 0 where
  pub name : String
  pub ip : Result (String × String)

-- A call that leaves the process.
pub data Action : Type 0 where
  -- `exec.Command`, with its standard input
  run : List String → Option String → Action
  -- `exec.Command` that writes to the file of this name
  run_to_file : List String → String → Action
  -- `kindexec.OutputLines(kindexec.Command(…))`
  output_lines : List String → Action
  -- `os.Getenv` and `os.Create`
  get_env : String → Action
  create_file : String → Action
  -- `net.Listen("tcp", …)` gives a handle, which `Close` takes
  listen : String → Action
  close : ℕ → Action
  -- `Accept` and `net.Dial` give a handle too; `io.Copy` to the first handle from the second
  accept : ℕ → Action
  dial : String → Action
  copy : ℕ → ℕ → Action
  -- `client.Get`
  http_get : String → Action
  -- how often `wait.PollUntilContextTimeout` may call its condition, by interval and timeout
  poll_budget : ℕ → ℕ → Action
  -- the methods of kind's `cluster.Provider`
  list_clusters : Action
  list_nodes : String → Action
  kube_config : String → Bool → Action
  -- `time.Sleep`, in seconds
  sleep : ℕ → Action
  -- whether the context is done, at once or within some seconds
  ctx_done : Action
  done_within : ℕ → Action
  -- the clients of client-go: the host that a kubeconfig names, a client for a host, and the
  -- status code of `/healthz`
  rest_config : String → Action
  kube_client : String → Action
  healthz : String → Action
  -- the controllers of a cluster: set up, made, run, and cancelled with their context
  feature_gates : Action
  service_controller : String → Action
  run_service_controller : String → Action
  node_controller : String → Action
  run_node_controller : String → Action
  start_informers : String → Action
  cancel : String → Action
  -- `os.MkdirTemp`, `os.Stat` with whether its error is `IsNotExist`, `os.MkdirAll`, `os.ReadFile`
  mkdir_temp : Action
  is_missing : String → Action
  mkdir_all : String → Action
  read_file : String → Action
  -- `syscall.Geteuid`, and kind's `cluster.DetectNodeProvider`
  get_euid : Action
  detect_node_provider : Action

abbrev pub Answer : Action → Type 0
Answer (run argv stdin) = Output
Answer (run_to_file argv file) = Option Err
Answer (output_lines argv) = List String × Option Err
Answer (get_env name) = String
Answer (create_file name) = Option Err
Answer (listen address) = Result ℕ
Answer (close handle) = Option Err
Answer (accept handle) = Result ℕ
Answer (dial address) = Result ℕ
Answer (copy to_handle from_handle) = Unit
Answer (http_get url) = Result Response
Answer (poll_budget interval timeout) = ℕ
Answer list_clusters = List String × Option Err
Answer (list_nodes cluster) = Result (List KindNode)
Answer (kube_config cluster internal) = Result String
Answer (sleep seconds) = Unit
Answer ctx_done = Bool
Answer (done_within seconds) = Bool
Answer (rest_config kconfig) = Result String
Answer (kube_client host) = Option Err
Answer (healthz host) = ℕ
Answer feature_gates = Option Err
Answer (service_controller cluster) = Option Err
Answer (run_service_controller cluster) = Unit
Answer (node_controller cluster) = Option Err
Answer (run_node_controller cluster) = Unit
Answer (start_informers cluster) = Unit
Answer (cancel cluster) = Unit
Answer mkdir_temp = Result String
Answer (is_missing dir) = Bool
Answer (mkdir_all dir) = Option Err
Answer (read_file file) = Result String
Answer get_euid = ℕ
Answer detect_node_provider = Option Err

-- The calls so far, the latest in front.
abbrev pub Trace : Type 0
Trace = List Action

-- `portMapping`, which `PortMaps` reads from JSON.
pub record PortMapping : Type 0 where
  pub host_port : String
  pub host_ip : String

-- `IsIPv4String`, `IsIPv6String` and `ParseCIDRSloppy` of k8s.io/utils/net. `parse_cidr` gives the
-- texts of the network's address and the length of its mask.
pub record Net : Type 0 where
  pub is_ipv4_string : String → Bool
  pub is_ipv6_string : String → Bool
  pub parse_cidr : String → Option (String × ℕ)

-- The build tags of pkg/loadbalancer/address_*.go.
pub data Platform : Type 0 where
  darwin windows other : Platform

-- The environment answers a call by what was called before it. `order` is the order in which
-- `range` visits the keys of a map. `runtime` is the variable `containerRuntime` after `init`.
-- `unmarshal_ports` is `json.Unmarshal` into a `map[string][]portMapping`.
pub record Env : Type 0 where
  pub platform : Platform
  pub runtime : String
  pub answer : Trace → (a : Action) → Answer a
  pub unmarshal_ports : String → Result (Dict (List PortMapping))
  pub net : Net
  pub order : Trace → List String → List String
  pub order-perm : (h : Trace) (keys : List String) → Perm (order h keys) keys

-- The calls so far, the variable `config.DefaultConfig`, and whether `once` has fired.
pub record World : Type 0 where
  pub trace : Trace
  pub config : Config
  pub once_done : Bool
