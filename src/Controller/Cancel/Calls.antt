-- ===== src/Controller/Cancel/Calls.antt =====
-- The calls of `cancelFn`.
use cloud_provider_kind.Base.{String, ℕ, ◌<>◌, none, [], ◌∷◌}
use cloud_provider_kind.Api.{Service}
use cloud_provider_kind.LoadBalancer.Names.{load_balancer_name}
use cloud_provider_kind.LoadBalancer.Server.Running.{rm_call}
use cloud_provider_kind.LoadBalancer.Tunnel.{remove_ip_command}
use cloud_provider_kind.World.{
  Action, Env, cancel, create_file, close, run, run_to_file, output_lines,
}

abbrev pub list_call : String → String → String → Action
list_call rt key value = output_lines (
    rt
    ∷ "ps"
    ∷ "-a"
    ∷ "--filter"
    ∷ ("label=" <> (key <> ("=" <> value)))
    ∷ "--format"
    ∷ "{{.ID }}"
    ∷ [])

abbrev pub label_call : String → String → String → Action
label_call rt id key =
    output_lines
      (rt ∷ "inspect" ∷ "--format" ∷ ("{{ index .Config.Labels \"" <> (key <> "\"}}")) ∷ id ∷ [])

-- The calls of `cancelFn`.
pub data IsCancelling (e : Env) : Action → Type 0 where
  cancels : (cluster : String) → IsCancelling e (cancel cluster)
  lists : (key value : String) → IsCancelling e (list_call e.runtime key value)
  labels : (id key : String) → IsCancelling e (label_call e.runtime id key)
  closes : (ln : ℕ) → IsCancelling e (close ln)
  releases : (ip : String) → IsCancelling e (run (remove_ip_command e.platform ip) none)
  creates : (file : String) → IsCancelling e (create_file file)
  copies_logs :
      (name file : String) → IsCancelling e (run_to_file (e.runtime ∷ "logs" ∷ name ∷ []) file)
  removes :
      (cluster_name : String) (service : Service)
      → IsCancelling e (rm_call e.runtime (load_balancer_name cluster_name service))
