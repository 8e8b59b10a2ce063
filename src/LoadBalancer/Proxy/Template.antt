-- ===== src/LoadBalancer/Proxy/Template.antt =====
-- The two templates of pkg/loadbalancer/proxy.go, as the lines that they render.
pub mod Lines
pub mod Blocks
pub mod Order
use cloud_provider_kind.Base.{
  String, ◌<>◌, ℕ, ◌==◌, string_eq, if◌then◌else◌, Bool, true, false, List, [], ◌∷◌, ◌++◌,
}
use cloud_provider_kind.Base.Decimal.{itoa}
use cloud_provider_kind.Base.Dict.{Dict, sorted}
use cloud_provider_kind.World.{Result, ok}
use cloud_provider_kind.LoadBalancer.Proxy.Config.{
  Endpoint, ServicePort, SourceRange, ProxyConfigData,
}

-- What `range` renders for each element in turn.
unfoldable pub each {ℓ} : {A : Type ℓ} → (A → List String) → List A → List String
each f [] = []
each f (x ∷ xs) = f x ++ each f xs

abbrev pub client_ip : String
client_ip = "ClientIP"

abbrev pub source_range_lines : SourceRange → List String
source_range_lines sr =
    ("      - address_prefix: \"" <> (sr.prefix <> "\""))
    ∷ ("        prefix_len: " <> itoa sr.length)
    ∷ []

-- `{{- if len $.SourceRanges }}`
abbrev source_ranges_lines : List SourceRange → List String
source_ranges_lines [] = []
source_ranges_lines (sr ∷ ranges) =
    "    filter_chain_match:"
    ∷ "      source_prefix_ranges:"
    ∷ each source_range_lines (sr ∷ ranges)

listener_head : String → ServicePort → List String
listener_head index sp =
    "- \"@type\": type.googleapis.com/envoy.config.listener.v3.Listener"
    ∷ ("  name: listener_" <> index)
    ∷ "  address:"
    ∷ "    socket_address:"
    ∷ ("      address: " <> sp.listener.address)
    ∷ ("      port_value: " <> itoa sp.listener.port)
    ∷ ("      protocol: " <> sp.listener.protocol)
    ∷ []

udp_route : String → List String
udp_route index =
    "  udp_listener_config:"
    ∷ "    downstream_socket_config:"
    ∷ "      max_rx_datagram_size: 9000"
    ∷ "  listener_filters:"
    ∷ "  - name: envoy.filters.udp_listener.udp_proxy"
    ∷ "    typed_config:"
    ∷ "      '@type': type.googleapis.com/envoy.extensions.filters.udp.udp_proxy.v3.UdpProxyConfig"
    ∷ "      access_log:"
    ∷ "      - name: envoy.file_access_log"
    ∷ "        typed_config:"
    ∷ "          \"@type\": type.googleapis.com/envoy.extensions.access_loggers.stream.v3.StdoutAccessLog"
    ∷ "      stat_prefix: udp_proxy"
    ∷ "      matcher:"
    ∷ "        on_no_match:"
    ∷ "          action:"
    ∷ "            name: route"
    ∷ "            typed_config:"
    ∷ "              '@type': type.googleapis.com/envoy.extensions.filters.udp.udp_proxy.v3.Route"
    ∷ ("              cluster: cluster_" <> index)
    ∷ []

abbrev udp_affinity : String → List String
udp_affinity affinity =
    if affinity == client_ip then "      hash_policies:" ∷ "        source_ip: true" ∷ [] else []

abbrev udp_upstream : List String
udp_upstream = "      upstream_socket_config:" ∷ "        max_rx_datagram_size: 9000" ∷ []

tcp_chain : String → List String
tcp_chain index =
    "  filter_chains:"
    ∷ "  - filters:"
    ∷ "    - name: envoy.filters.network.tcp_proxy"
    ∷ "      typed_config:"
    ∷ "        \"@type\": type.googleapis.com/envoy.extensions.filters.network.tcp_proxy.v3.TcpProxy"
    ∷ "        access_log:"
    ∷ "        - name: envoy.file_access_log"
    ∷ "          typed_config:"
    ∷ "            \"@type\": type.googleapis.com/envoy.extensions.access_loggers.stream.v3.StdoutAccessLog"
    ∷ "        stat_prefix: tcp_proxy"
    ∷ ("        cluster: cluster_" <> index)
    ∷ []

abbrev tcp_affinity : String → List String
tcp_affinity affinity =
    if affinity == client_ip then "        hash_policy:" ∷ "          source_ip: {}" ∷ [] else []

-- One element of the listeners' template.
unfoldable pub listener_lines : ProxyConfigData → String × ServicePort → List String
unfolding each listener_head udp_route tcp_chain
listener_lines d (index, sp) =
    listener_head index sp
    ++ (if sp.listener.protocol == "UDP"
        then udp_route index ++ (udp_affinity d.session_affinity ++ udp_upstream)
        else tcp_chain index
          ++ (tcp_affinity d.session_affinity ++ source_ranges_lines d.source_ranges))

unfoldable pub endpoint_lines : ℕ → Endpoint → List String
endpoint_lines health_check_port e =
    "      - lb_endpoints:"
    ∷ "        - endpoint:"
    ∷ "            health_check_config:"
    ∷ ("              port_value: " <> itoa health_check_port)
    ∷ "            address:"
    ∷ "              socket_address:"
    ∷ ("                address: " <> e.address)
    ∷ ("                port_value: " <> itoa e.port)
    ∷ ("                protocol: " <> e.protocol)
    ∷ []

cluster_head : String → List String
cluster_head index =
    "- \"@type\": type.googleapis.com/envoy.config.cluster.v3.Cluster"
    ∷ ("  name: cluster_" <> index)
    ∷ "  connect_timeout: 5s"
    ∷ "  type: STATIC"
    ∷ []

abbrev cluster_policy : String → List String
cluster_policy affinity =
    if affinity == client_ip then "  lb_policy: RING_HASH" ∷ [] else "  lb_policy: RANDOM" ∷ []

cluster_checks : String → List String
cluster_checks index =
    "  health_checks:"
    ∷ "  - timeout: 5s"
    ∷ "    interval: 3s"
    ∷ "    unhealthy_threshold: 2"
    ∷ "    healthy_threshold: 1"
    ∷ "    no_traffic_interval: 5s"
    ∷ "    always_log_health_check_failures: true"
    ∷ "    always_log_health_check_success: true"
    ∷ "    event_log_path: /dev/stdout"
    ∷ "    http_health_check:"
    ∷ "      path: /healthz"
    ∷ "  load_assignment:"
    ∷ ("    cluster_name: cluster_" <> index)
    ∷ "    endpoints:"
    ∷ []

-- One element of the clusters' template.
unfoldable pub cluster_lines : ProxyConfigData → String × ServicePort → List String
unfolding each cluster_head cluster_checks endpoint_lines
cluster_lines d (index, sp) =
    cluster_head index
    ++ (cluster_policy d.session_affinity
        ++ (cluster_checks index ++ each (endpoint_lines d.health_check_port) sp.cluster))

-- `proxyLDSConfigTemplate` and `proxyCDSConfigTemplate`
pub data Template : Type 0 where
  lds cds : Template

unfoldable pub template_lines : Template → ProxyConfigData → List String
unfolding each sorted listener_lines cluster_lines
template_lines lds d = "resources:" ∷ each (listener_lines d) (sorted d.service_ports)
template_lines cds d = "resources:" ∷ each (cluster_lines d) (sorted d.service_ports)

-- Each line behind a line feed.
unfoldable pub unlines : List String → String
unlines [] = ""
unlines (l ∷ ls) = "\n" <> (l <> unlines ls)

-- The two templates parse, and rendering them into a buffer does not fail.
unfoldable pub proxy_config : Template → ProxyConfigData → Result String
unfolding template_lines unlines
proxy_config t d = ok (unlines (template_lines t d) <> "\n")
