-- ===== src/LoadBalancer/Server/Create.antt =====
-- `createLoadBalancer` of pkg/loadbalancer/server.go.
use cloud_provider_kind.Base.{
  String, ◌<>◌, ◌==◌, string_eq, contains, if◌then◌else◌, Bool, true, false, ◌||◌, Option, none,
  some, List, [], ◌∷◌, ◌++◌,
}
use cloud_provider_kind.Base.Decimal.{itoa}
use cloud_provider_kind.Api.{Service, SpecPort, ipv6_protocol, protocol_tcp, protocol_udp}
use cloud_provider_kind.Config.{
  is_portmap, fixed_network_name, node_ccm_label_key, load_balancer_name_label_key,
}
use cloud_provider_kind.Container.{create}
use cloud_provider_kind.LoadBalancer.Names.{load_balancer_name, load_balancer_simple_name}
use cloud_provider_kind.LoadBalancer.Proxy.Update.{
  proxy_config_path, proxy_config_path_cds, proxy_config_path_lds, envoy_admin_port,
}
use cloud_provider_kind.LoadBalancer.Tunnel.{Tunnels}
use cloud_provider_kind.World.{
  Err, wrapf, Result, ok, err, get_env, Proc, perform, config, lift, ◌>>=◌,
}

abbrev pub dynamic_filesystem_config : String
dynamic_filesystem_config =
    "node:\n  cluster: cloud-provider-kind\n  id: cloud-provider-kind-id\n\ndynamic_resources:\n  cds_config:\n    resource_api_version: V3\n    path: /home/envoy/cds.yaml\n  lds_config:\n    resource_api_version: V3\n    path: /home/envoy/lds.yaml\n\nadmin:\n  access_log_path: /dev/stdout\n  address:\n    socket_address:\n      address: 0.0.0.0\n      port_value: 10000\n"

-- A service that is nil has no families.
unfoldable pub is_ipv6_service : Option Service → Bool
is_ipv6_service none = false
is_ipv6_service (some service) = contains service.ip_families ipv6_protocol

-- The ports that are published one by one, in order.
unfoldable pub publish_args : List SpecPort → List String
publish_args [] = []
publish_args (p ∷ ports) =
    let rest = publish_args ports in
    if p.protocol == protocol_tcp || p.protocol == protocol_udp
    then ("--publish=" <> (itoa p.port <> ("/" <> p.protocol))) ∷ rest
    else rest

-- `bash -c`'s script: writes envoy's configuration and runs envoy until it ends well.
pub startup_script : String
startup_script =
    "echo -en '"
    <> (dynamic_filesystem_config
        <> ("' > "
            <> (proxy_config_path
                <> (" && touch "
                    <> (proxy_config_path_cds
                        <> (" && touch "
                            <> (proxy_config_path_lds
                                <> (" && while true; do envoy -c "
                                    <> (proxy_config_path <> " && break; sleep 1; done")))))))))

label_arg : String → String → String
label_arg key value = key <> ("=" <> value)

-- What follows `run --name NAME`.
unfoldable pub create_args : Bool → String → String → Service → String → List String
unfolding publish_args is_ipv6_service startup_script label_arg
create_args publish network cluster_name service image =
    ("--detach"
      ∷ "--tty"
      ∷ "--label"
      ∷ label_arg node_ccm_label_key cluster_name
      ∷ "--label"
      ∷ label_arg load_balancer_name_label_key (load_balancer_simple_name cluster_name service)
      ∷ "--net"
      ∷ network
      ∷ "--init=false"
      ∷ "--hostname"
      ∷ load_balancer_name cluster_name service
      ∷ "--privileged"
      ∷ "--restart=on-failure"
      ∷ "--sysctl=net.ipv4.ip_forward=1"
      ∷ "--sysctl=net.ipv4.conf.all.rp_filter=0"
      ∷ [])
    ++ ((if is_ipv6_service (some service)
          then "--sysctl=net.ipv6.conf.all.disable_ipv6=0"
            ∷ "--sysctl=net.ipv6.conf.all.forwarding=1" ∷ []
          else [])
        ++ ((if publish then publish_args service.ports else [])
            ++ (("--publish=" <> (itoa envoy_admin_port <> ("/" <> protocol_tcp)))
                ∷ "--publish-all"
                ∷ image
                ∷ "bash"
                ∷ "-c"
                ∷ startup_script
                ∷ [])))

-- A list as `%v` prints it.
print_words : List String → String
print_words [] = ""
print_words (s ∷ []) = s
print_words (s ∷ rest) = s <> (" " <> print_words rest)

unfoldable pub create_error : String → List String → Err → Err
unfolding print_words
create_error name args x =
    wrapf ("failed to create continers " <> (name <> (" [" <> (print_words args <> "]: ")))) x

abbrev pub wrap_create : String → List String → Result (Unit {0}) → Result (Unit {0})
wrap_create name args (ok _) = ok tt
wrap_create name args (err x) = err (create_error name args x)

abbrev has_tunnels : Option Tunnels → Bool
has_tunnels none = false
has_tunnels (some ts) = true

unfoldable pub create_load_balancer :
    Option Tunnels → String → Service → String → Proc (Result (Unit {0}))
create_load_balancer tunnels cluster_name service image = do
  n ← lift (perform (get_env "KIND_EXPERIMENTAL_DOCKER_NETWORK"))
  c ← lift config
  let name = load_balancer_name cluster_name service
  let network = if n == "" then fixed_network_name else n
  let publish = has_tunnels tunnels || is_portmap c.load_balancer_connectivity
  let args = create_args publish network cluster_name service image
  r ← lift (create name args)
  λ e w. (wrap_create name args r, w)
