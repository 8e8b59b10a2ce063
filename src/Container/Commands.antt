-- ===== src/Container/Commands.antt =====
-- The commands of pkg/container/container.go that do not read a container's details.
use text.Mathlib.Text.{starts_with}
use cloud_provider_kind.Base.{
  String, ◌<>◌, ◌==◌, string_eq, if◌then◌else◌, Bool, true, false, Option, none, some, List, [],
  ◌∷◌, ◌++◌,
}
use cloud_provider_kind.World.{
  Err, wrapf, Result, ok, err, Output, run, run_to_file, output_lines, create_file, Proc, perform,
  runtime, pure, lift, check, ◌>>=◌, ◌>>◌,
}

-- Whether a command printed one line, which begins with a banner.
abbrev has_banner : String → List String × Option Err → Bool
has_banner banner (line ∷ [], none) = starts_with line banner
has_banner banner _ = false

docker_is_available : Proc Bool
docker_is_available e w =
    let (out, w') = perform (output_lines ("docker" ∷ "-v" ∷ [])) e w in
    (has_banner "Docker version" out, w')

podman_is_available : Proc Bool
podman_is_available e w =
    let (out, w') = perform (output_lines ("podman" ∷ "-v" ∷ [])) e w in
    (has_banner "podman version" out, w')

-- The value of `containerRuntime` where docker is not available.
init_podman : Proc (Result String)
unfolding podman_is_available
init_podman = do
  available ← lift podman_is_available
  pure (if available then "podman" else "docker")

-- `init`: the value that it leaves in `containerRuntime`.
unfoldable pub init : Proc (Result String)
unfolding docker_is_available init_podman
init = do available ← lift docker_is_available; if available then pure "docker" else init_podman

-- `exec.Command(containerRuntime, args…).Run()`
unfoldable pub command : List String → Option String → Proc (Result Output)
command args stdin = do rt ← lift runtime; lift (perform (run (rt ∷ args) stdin))

run_error : List String → Proc (Result (Unit {0}))
unfolding command
run_error args = do out ← command args none; λ e w. (check out.error, w)

-- `fmt.Errorf("failed to get container logs: %w", err)`
abbrev logs_error : Result (Option Err) → Result (Unit {0})
logs_error (ok none) = ok tt
logs_error (ok (some x)) = err (wrapf "failed to get container logs: " x)
logs_error (err x) = err x

-- `Logs(name, w)`, where `w` is the file `file`.
unfoldable pub logs : String → String → Proc (Result (Unit {0}))
logs name file = do
  rt ← lift runtime
  error ← lift (perform (run_to_file (rt ∷ "logs" ∷ name ∷ []) file))
  λ e w. (logs_error (ok error), w)

unfoldable pub log_dump : String → String → Proc (Result (Unit {0}))
unfolding logs
log_dump container_name file_name = do
  error ← lift (perform (create_file file_name))
  λ e w. (check error, w)
  logs container_name file_name

unfoldable pub create : String → List String → Proc (Result (Unit {0}))
unfolding run_error
create name args = run_error ("run" ∷ "--name" ∷ name ∷ args)

unfoldable pub restart : String → Proc (Result (Unit {0}))
unfolding run_error
restart name = run_error ("restart" ∷ name ∷ [])

unfoldable pub delete : String → Proc (Result (Unit {0}))
unfolding run_error
delete name = run_error ("rm" ∷ "-f" ∷ name ∷ [])

-- A command that failed or printed nothing is `false`.
abbrev pub printed : Output → Bool
printed out = elim out.error [ some x ↦ false | none ↦ if out.stdout == "" then false else true ]

unfoldable pub is_running : String → Proc (Result Bool)
unfolding command
is_running name = do
  out ← command ("ps" ∷ "-q" ∷ "-f" ∷ ("name=" <> name) ∷ []) none
  pure (printed out)

-- `err == nil`
abbrev pub is_nil : Option Err → Bool
is_nil none = true
is_nil (some x) = false

unfoldable pub exist : String → Proc (Result Bool)
unfolding command
exist name = do out ← command ("inspect" ∷ name ∷ []) none; pure (is_nil out.error)

unfoldable pub signal : String → String → Proc (Result (Unit {0}))
unfolding run_error
signal name sig = run_error ("kill" ∷ "-s" ∷ sig ∷ name ∷ [])

-- `-i`, where there is a standard input.
abbrev interactive : Option String → List String
interactive none = []
interactive (some stdin) = "-i" ∷ []

-- What the command wrote stands beside its error, as in the buffers that the caller passes.
unfoldable pub exec : String → List String → Option String → Proc (Result Output)
unfolding command
exec name argv stdin =
    command (("exec" ∷ "--privileged" ∷ []) ++ (interactive stdin ++ (name ∷ argv))) stdin
