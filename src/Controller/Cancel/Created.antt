-- ===== src/Controller/Cancel/Created.antt =====
-- The labels that `createLoadBalancer` gives to a container, for `cancelFn` to find it.
use cloud_provider_kind.Base.{
  String, ◌<>◌, ◌==◌, string_eq, if◌then◌else◌, Bool, Bool-cases, true, false, ◌||◌, ◌≡◌, refl,
  Option, some, none, List, [], ◌∷◌, ◌++◌, In, inl, inr, ◌⊎◌,
}
use cloud_provider_kind.Base.Decimal.{itoa}
use cloud_provider_kind.Base.Text.{Lacks}
use cloud_provider_kind.Api.{Service, SpecPort, protocol_tcp, protocol_udp}
use cloud_provider_kind.Config.{node_ccm_label_key, load_balancer_name_label_key}
use cloud_provider_kind.Container.{create}
use cloud_provider_kind.Controller.Cancel.Calls.{list_call, label_call, IsCancelling}
use cloud_provider_kind.Controller.Starting.{IsStarting}
use cloud_provider_kind.LoadBalancer.Names.{load_balancer_name, load_balancer_simple_name}
use cloud_provider_kind.LoadBalancer.Proxy.Update.{proxy_image, envoy_admin_port}
use cloud_provider_kind.LoadBalancer.Server.Create.{
  publish_args, create_args, wrap_create, startup_script, create_load_balancer, is_ipv6_service,
}
use cloud_provider_kind.LoadBalancer.Server.Running.{rm_call, run_call}
use cloud_provider_kind.LoadBalancer.Tunnel.{Tunnels}
use cloud_provider_kind.World.{Err, ok, Action, Trace, Env, World, check}

-- The words of `run` behind the labels: options of these forms, then the image and its command.
pub data IsRest : List String → Type 0 where
  net : (network : String) {rest : List String} → IsRest rest → IsRest ("--net" ∷ network ∷ rest)
  init : {rest : List String} → IsRest rest → IsRest ("--init=false" ∷ rest)
  hostname :
      (host : String) {rest : List String} → IsRest rest → IsRest ("--hostname" ∷ host ∷ rest)
  privileged : {rest : List String} → IsRest rest → IsRest ("--privileged" ∷ rest)
  restart :
      (policy : String) {rest : List String}
      → IsRest rest
      → IsRest (("--restart=" <> policy) ∷ rest)
  sysctl : (s : String) {rest : List String} → IsRest rest → IsRest (("--sysctl=" <> s) ∷ rest)
  publish : (p : String) {rest : List String} → IsRest rest → IsRest (("--publish=" <> p) ∷ rest)
  publish_all : {rest : List String} → IsRest rest → IsRest ("--publish-all" ∷ rest)
  image : (command : List String) → IsRest (proxy_image ∷ command)

-- `run` with the two labels, their values given.
abbrev pub create_call : String → String → String → String → List String → Action
create_call rt name cluster simple rest = run_call rt name (
    "--detach"
    ∷ "--tty"
    ∷ "--label"
    ∷ (node_ccm_label_key <> ("=" <> cluster))
    ∷ "--label"
    ∷ (load_balancer_name_label_key <> ("=" <> simple))
    ∷ rest)

-- What the runtime's documentation says of labels: `run` gives them to a container with some id,
-- `ps` lists the containers with a label, `inspect` prints a label, of the calls of `cancelFn` only
-- `rm` with the name of the container takes them away, and the calls that start the manager of a
-- cluster do not concern containers. `labelled` tells by the calls so far whether a container has a
-- name, an id and the values of the two labels.
pub record Labels (e : Env) : Type 0 where
  pub labelled : Trace → String → String → String → String → Bool
  pub create_lem :
      (h : Trace) (name cluster simple : String) (rest : List String)
      → IsRest rest
      → (e.answer h (create_call e.runtime name cluster simple rest)).error ≡ none
      → (id : String) × (labelled
            (create_call e.runtime name cluster simple rest ∷ h)
            name
            id
            cluster
            simple
          ≡ true)
  pub list_lem :
      (h : Trace) (name id cluster simple : String)
      → labelled h name id cluster simple ≡ true
      → ((e.answer h (list_call e.runtime node_ccm_label_key cluster)).1 ≡ none)
        × In id (e.answer h (list_call e.runtime node_ccm_label_key cluster)).0
  pub label_lem :
      (h : Trace) (name id cluster simple : String)
      → Lacks "\n" simple
      → labelled h name id cluster simple ≡ true
      → e.answer h (label_call e.runtime id load_balancer_name_label_key) ≡ (simple ∷ [], none)
  pub stays :
      (h : Trace) (a : Action) (name id cluster simple : String)
      → IsCancelling e a
      → labelled h name id cluster simple ≡ true
      → (labelled (a ∷ h) name id cluster simple ≡ true) ⊎ (a ≡ rm_call e.runtime name)
  pub starts :
      (h : Trace) (a : Action) (name id cluster simple : String)
      → IsStarting a
      → labelled h name id cluster simple ≡ true
      → labelled (a ∷ h) name id cluster simple ≡ true

publish_args-IsRest :
    (ports : List SpecPort) {rest : List String} → IsRest rest → IsRest (publish_args ports ++ rest)
unfolding publish_args
publish_args-IsRest [] r = r
publish_args-IsRest (p ∷ ports) r =
    elim (Bool-cases (p.protocol == protocol_tcp || p.protocol == protocol_udp)) [
      | inl is ↦
          rw (is, publish_args)
            (publish (itoa p.port <> ("/" <> p.protocol)) (publish_args-IsRest ports r))
      | inr other ↦ rw (other, publish_args) (publish_args-IsRest ports r)
    ]

ipv6-IsRest :
    (b : Bool) {rest : List String}
    → IsRest rest
    → IsRest (
        (if b
          then "--sysctl=net.ipv6.conf.all.disable_ipv6=0"
            ∷ "--sysctl=net.ipv6.conf.all.forwarding=1" ∷ []
          else [])
        ++ rest)
ipv6-IsRest true r =
    sysctl "net.ipv6.conf.all.disable_ipv6=0" (sysctl "net.ipv6.conf.all.forwarding=1" r)
ipv6-IsRest false r = r

published-IsRest :
    (b : Bool) (ports : List SpecPort) {rest : List String}
    → IsRest rest
    → IsRest ((if b then publish_args ports else []) ++ rest)
published-IsRest true ports r = publish_args-IsRest ports r
published-IsRest false ports r = r

-- A container with the labels of a service.
abbrev pub IsLabelled : (e : Env) → Labels e → String → Service → String → Trace → Type 0
IsLabelled e r cluster service id h =
    r.labelled h (load_balancer_name cluster service) id cluster
      (load_balancer_simple_name cluster service)
    ≡ true

none_of_create :
    (name : String) (args : List String) (o : Option Err)
    → wrap_create name args (check o) ≡ ok tt
    → o ≡ none
none_of_create name args none h = refl
none_of_create name args (some x) h = absurd (cc)

-- A container that `createLoadBalancer` has made gets both labels.
pub create_load_balancer-IsLabelled :
    (e : Env) (r : Labels e) (tunnels : Option Tunnels) (cluster : String) (service : Service)
    (w : World)
    → let after = create_load_balancer tunnels cluster service proxy_image e w in
      after.0 ≡ ok tt → (id : String) × IsLabelled e r cluster service id after.1.trace
unfolding create_load_balancer create create_args is_ipv6_service
create_load_balancer-IsLabelled e r tunnels cluster service w done =
    r.create_lem _ (load_balancer_name cluster service) cluster
      (load_balancer_simple_name cluster service) _
      (net _ (
        init (
          hostname _ (
            privileged (
              restart "on-failure" (
                sysctl "net.ipv4.ip_forward=1" (
                  sysctl "net.ipv4.conf.all.rp_filter=0" (
                    ipv6-IsRest _ (
                      published-IsRest _ service.ports (
                        publish (itoa envoy_admin_port <> ("/" <> protocol_tcp))
                          (publish_all (image ("bash" ∷ "-c" ∷ startup_script ∷ [])))))))))))))
      (none_of_create _ _ _ done)
