-- ===== src/Cmd.antt =====
-- cmd/app.go: the flags and the platform make the configuration, and the controller runs.
pub mod Connectivity
pub mod Decides
pub mod Returns
use cloud_provider_kind.Base.{
  String, ℕ, nat_eq, ◌==◌, string_eq, if◌then◌else◌, Bool, true, false, not, ◌&&◌, ◌||◌, Option,
  none, some, List, [], ◌∷◌,
}
use cloud_provider_kind.Base.Text.{has_substring}
use cloud_provider_kind.Config.{Config, zero_config, portmap, tunnel}
use cloud_provider_kind.Controller.Rounds.{Clusters, run_rounds}
use cloud_provider_kind.World.{
  Err, errorf, Result, ok, err, Platform, darwin, windows, other, mkdir_temp, is_missing, mkdir_all,
  read_file, get_euid, detect_node_provider, Env, World, Proc, perform, pure, fail, lift, check,
  ◌>>=◌, ◌>>◌,
}

-- The command line flags; the verbosity is left out.
pub record Flags : Type 0 where
  pub enable_log_dump : Bool
  pub log_dump_dir : String
  pub enable_lb_port_mapping : Bool

-- Without any flag on the command line.
abbrev pub default_flags : Flags
default_flags = record {
  enable_log_dump = false;
  log_dump_dir = "";
  enable_lb_port_mapping = false;
}

abbrev pub wsl2_text : Result String → Bool
wsl2_text (ok text) = has_substring text "WSL2"
wsl2_text (err x) = false

unfoldable pub is_wsl2 : Proc Bool
is_wsl2 e w = let (text, w') = perform (read_file "/proc/version") e w in (wsl2_text text, w')

-- The directory for the logs. `klog.Fatal` ends the program, here with an error.
unfoldable pub log_directory : Flags → Proc (Result String)
log_directory f = if f.log_dump_dir == "" then perform mkdir_temp else pure f.log_dump_dir

make_all : String → Proc (Result (Unit {0}))
make_all dir = do error ← lift (perform (mkdir_all dir)); λ e w. (check error, w)

unfoldable pub make_missing : String → Proc (Result (Unit {0}))
unfolding make_all
make_missing dir = do
  missing ← lift (perform (is_missing dir))
  if missing then make_all dir else pure tt

-- `config.DefaultConfig` with the directory for the logs.
unfoldable pub with_logs : Flags → Config → Proc (Result Config)
unfolding log_directory make_missing
with_logs f c = do
  dir ← log_directory f
  make_missing dir
  pure (record c { enable_log_dump = true; log_dir = dir })

unfoldable pub init_logs : Flags → Config → Proc (Result Config)
unfolding with_logs
init_logs f c = if f.enable_log_dump then with_logs f c else pure c

abbrev pub is_desktop : Platform → Bool
is_desktop darwin = true
is_desktop windows = true
is_desktop other = false

-- `runtime.GOOS == "darwin" || runtime.GOOS == "windows" || isWSL2()`
unfoldable pub needs_tunnels : Proc Bool
unfolding is_wsl2
needs_tunnels e w = if is_desktop e.platform then (true, w) else is_wsl2 e w

-- The connectivities that `Main` assigns; `desktop` is the test on the platform.
unfoldable pub set_connectivities : Flags → Bool → Config → Config
set_connectivities f desktop c =
    let c1 = if desktop then record c { load_balancer_connectivity = tunnel } else c in
    let c2 =
      if f.enable_lb_port_mapping then record c1 { load_balancer_connectivity = portmap } else c1 in
    record c2 { control_plane_connectivity = portmap }

-- The part of `Main` that sets `config.DefaultConfig`.
unfoldable pub configure : Flags → Proc (Result Config)
unfolding init_logs needs_tunnels set_connectivities
configure f = do
  c ← init_logs f zero_config
  desktop ← lift needs_tunnels
  pure (set_connectivities f desktop c)

abbrev is_darwin : Platform → Bool
is_darwin darwin = true
is_darwin p = false

-- `runtime.GOOS == "darwin" && syscall.Geteuid() != 0` is fatal.
unfoldable pub check_user : Proc (Result (Unit {0}))
check_user e w =
    let (euid, w') = perform get_euid e w in
    if is_darwin e.platform
    then (if euid == 0
        then (ok tt, w')
        else (err (errorf "Please run this again with `sudo`."), w'))
    else (ok tt, w)

-- The assignments to the fields of `config.DefaultConfig`, all in one.
set_config : Config → Proc (Result (Unit {0}))
set_config c e w = (ok tt, record w { config = c })

-- What `Main` does before the controller runs. An `err` is where it ends the program.
unfoldable pub prepare : Flags → Proc (Result (Unit {0}))
unfolding check_user configure set_config
prepare f = do
  check_user
  c ← configure f
  set_config c
  error ← lift (perform detect_node_provider)
  λ e w. (check error, w)

-- `Main`, with at most `n` rounds of the controller, which starts without clusters. A signal only
-- makes the context done, which the controller asks for.
unfoldable pub main : ℕ → Flags → Proc (Result (Bool × Clusters))
unfolding prepare
main n f = do prepare f; lift (run_rounds n [])
