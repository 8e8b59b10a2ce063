-- ===== src/LoadBalancer/Proxy/Template/Blocks.antt =====
-- Where the two rendered texts have a listener and its cluster, written out.
use mathlib.Core.List.{flat_map}
use cloud_provider_kind.Base.{
  String, ◌<>◌, ℕ, ◌==◌, string_eq, if◌then◌else◌, Bool-cases, ◌≡◌, refl, sym, ap, ◌∙◌, some, List,
  [], ◌∷◌, ◌++◌, inl, inr, In, append_assoc,
}
use cloud_provider_kind.Base.Decimal.{itoa}
use cloud_provider_kind.Base.Dict
use cloud_provider_kind.Base.Dict.{Dict, sorted}
use cloud_provider_kind.Base.Entries.{In-sorted, In-of_lookup}
use cloud_provider_kind.LoadBalancer.Proxy.Config.{Endpoint, ServicePort, ProxyConfigData}
use cloud_provider_kind.LoadBalancer.Proxy.Template.{
  each, listener_lines, listener_head, udp_route, udp_affinity, udp_upstream, tcp_chain,
  tcp_affinity, source_ranges_lines, lds, template_lines,
}

each-split :
    {A : Type 0} (f : A → List String) (x : A) (xs : List A)
    → In x xs
    → (before after : List String) × (each f xs ≡ before ++ (f x ++ after))
unfolding each
each-split f x [] i = elim i [ ]
each-split f x (y ∷ xs) (inl e) = ([], each f xs, rw e refl)
each-split f x (y ∷ xs) (inr i) =
    let (before, after, is) = each-split f x xs i in
    (f y ++ before, after, ap (λ l. f y ++ l) is ∙ sym (append_assoc (f y) before _))

-- The lines of a listener from its start to the cluster that it sends its traffic to.
abbrev pub listener_to_cluster : String → ServicePort → List String
listener_to_cluster k sp =
    ("- \"@type\": type.googleapis.com/envoy.config.listener.v3.Listener"
      ∷ ("  name: listener_" <> k)
      ∷ "  address:"
      ∷ "    socket_address:"
      ∷ ("      address: " <> sp.listener.address)
      ∷ ("      port_value: " <> itoa sp.listener.port)
      ∷ ("      protocol: " <> sp.listener.protocol)
      ∷ [])
    ++ (if sp.listener.protocol == "UDP"
        then "  udp_listener_config:"
          ∷ "    downstream_socket_config:"
          ∷ "      max_rx_datagram_size: 9000"
          ∷ "  listener_filters:"
          ∷ "  - name: envoy.filters.udp_listener.udp_proxy"
          ∷ "    typed_config:"
          ∷ "      '@type': type.googleapis.com/envoy.extensions.filters.udp.udp_proxy.v3.UdpProxyConfig"
          ∷ "      access_log:"
          ∷ "      - name: envoy.file_access_log"
          ∷ "        typed_config:"
          ∷ "          \"@type\": type.googleapis.com/envoy.extensions.access_loggers.stream.v3.StdoutAccessLog"
          ∷ "      stat_prefix: udp_proxy"
          ∷ "      matcher:"
          ∷ "        on_no_match:"
          ∷ "          action:"
          ∷ "            name: route"
          ∷ "            typed_config:"
          ∷ "              '@type': type.googleapis.com/envoy.extensions.filters.udp.udp_proxy.v3.Route"
          ∷ ("              cluster: cluster_" <> k)
          ∷ []
        else "  filter_chains:"
          ∷ "  - filters:"
          ∷ "    - name: envoy.filters.network.tcp_proxy"
          ∷ "      typed_config:"
          ∷ "        \"@type\": type.googleapis.com/envoy.extensions.filters.network.tcp_proxy.v3.TcpProxy"
          ∷ "        access_log:"
          ∷ "        - name: envoy.file_access_log"
          ∷ "          typed_config:"
          ∷ "            \"@type\": type.googleapis.com/envoy.extensions.access_loggers.stream.v3.StdoutAccessLog"
          ∷ "        stat_prefix: tcp_proxy"
          ∷ ("        cluster: cluster_" <> k)
          ∷ [])

-- The lines of an endpoint.
abbrev pub nine_lines : ℕ → Endpoint → List String
nine_lines health_check_port e =
    "      - lb_endpoints:"
    ∷ "        - endpoint:"
    ∷ "            health_check_config:"
    ∷ ("              port_value: " <> itoa health_check_port)
    ∷ "            address:"
    ∷ "              socket_address:"
    ∷ ("                address: " <> e.address)
    ∷ ("                port_value: " <> itoa e.port)
    ∷ ("                protocol: " <> e.protocol)
    ∷ []

-- The lines of a cluster, with all its endpoints.
abbrev pub whole_cluster : ProxyConfigData → String → ServicePort → List String
whole_cluster d k sp =
    ("- \"@type\": type.googleapis.com/envoy.config.cluster.v3.Cluster"
      ∷ ("  name: cluster_" <> k)
      ∷ "  connect_timeout: 5s"
      ∷ "  type: STATIC"
      ∷ [])
    ++ ((if d.session_affinity == "ClientIP"
          then "  lb_policy: RING_HASH" ∷ []
          else "  lb_policy: RANDOM" ∷ [])
        ++ (("  health_checks:"
              ∷ "  - timeout: 5s"
              ∷ "    interval: 3s"
              ∷ "    unhealthy_threshold: 2"
              ∷ "    healthy_threshold: 1"
              ∷ "    no_traffic_interval: 5s"
              ∷ "    always_log_health_check_failures: true"
              ∷ "    always_log_health_check_success: true"
              ∷ "    event_log_path: /dev/stdout"
              ∷ "    http_health_check:"
              ∷ "      path: /healthz"
              ∷ "  load_assignment:"
              ∷ ("    cluster_name: cluster_" <> k)
              ∷ "    endpoints:"
              ∷ [])
            ++ flat_map (nine_lines d.health_check_port) sp.cluster))

module _ (d : ProxyConfigData) (k : String) (sp : ServicePort) where
  listener_starts :
      (rest : List String) × (listener_lines d (k, sp) ≡ listener_to_cluster k sp ++ rest)
  unfolding listener_lines listener_head udp_route tcp_chain
  listener_starts = elim (Bool-cases (sp.listener.protocol == "UDP")) [
    | inl udp ↦ (udp_affinity d.session_affinity ++ udp_upstream, rw udp refl)
    | inr tcp ↦
        (tcp_affinity d.session_affinity ++ source_ranges_lines d.source_ranges, rw tcp refl)
  ]

-- Under each key the listeners' text has a listener with the name of the key, at the address, the
-- port and the protocol of the configuration, and its TCP or UDP proxy, which its lines go on with,
-- sends the traffic to the cluster of that very key.
pub listener_has_cluster :
    (d : ProxyConfigData) (k : String) (sp : ServicePort)
    → Dict.lookup k d.service_ports ≡ some sp
    → (before rest : List String) × (template_lines lds d
        ≡ before ++ (listener_to_cluster k sp ++ rest))
unfolding template_lines
listener_has_cluster d k sp found =
    let (before, after, is) =
      each-split (listener_lines d) (k, sp) (sorted d.service_ports)
        (In-sorted _ _ (In-of_lookup k sp d.service_ports found)) in
    let (rest, starts) = listener_starts d k sp in
    (
      "resources:" ∷ before,
      rest ++ after,
      ap (λ l. "resources:" ∷ l)
          (is
            ∙ ap (λ l. before ++ (l ++ after)) starts
            ∙ ap (λ l. before ++ l) (append_assoc (listener_to_cluster k sp) rest after)),
    )
