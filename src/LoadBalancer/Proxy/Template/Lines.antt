-- ===== src/LoadBalancer/Proxy/Template/Lines.antt =====
-- What the rendered text of a listener says of the source ranges of the service.
use cloud_provider_kind.Base.{
  String, ◌==◌, string_eq, ==-ne, ==-self, ◌≡◌, ◌≢◌, true, false, some, List, [], ◌∷◌, inl, inr, In,
  In-append_left, In-append_right,
}
use cloud_provider_kind.Base.Dict
use cloud_provider_kind.Base.Dict.{Dict}
use cloud_provider_kind.Base.Entries.{In-sorted, In-of_lookup}
use cloud_provider_kind.LoadBalancer.Proxy.Config.{ServicePort, SourceRange, ProxyConfigData}
use cloud_provider_kind.LoadBalancer.Proxy.Template.{
  each, source_range_lines, source_ranges_lines, listener_lines, listener_head, tcp_chain,
  tcp_affinity, lds, template_lines,
}

In-each :
    {A : Type 0} (f : A → List String) (x : A) (line : String) (xs : List A)
    → In x xs
    → In line (f x)
    → In line (each f xs)
unfolding each
In-each f x line [] i h = elim i [ ]
In-each f x line (y ∷ xs) (inl e) h = In-append_left line (f y) _ (rw (← e) h)
In-each f x line (y ∷ xs) (inr i) h = In-append_right line (f y) _ (In-each f x line xs i h)

module _ (d : ProxyConfigData) (k : String) (sp : ServicePort) where
  In-lds :
      (line : String)
      → Dict.lookup k d.service_ports ≡ some sp
      → In line (listener_lines d (k, sp))
      → In line (template_lines lds d)
  unfolding template_lines
  In-lds line found i = inr (
      In-each (listener_lines d) (k, sp) line _
        (In-sorted _ _ (In-of_lookup k sp d.service_ports found)) i)

  In-source_ranges :
      (ranges : List SourceRange) (sr : SourceRange) (line : String)
      → In sr ranges
      → In line (source_range_lines sr)
      → In line (source_ranges_lines ranges)
  In-source_ranges [] sr line m i = elim m [ ]
  In-source_ranges (r ∷ ranges) sr line m i =
      inr (inr (In-each source_range_lines sr line (r ∷ ranges) m i))

  In-source_range :
      (sr : SourceRange) (line : String)
      → In sr d.source_ranges
      → (sp.listener.protocol == "UDP") ≡ false
      → In line (source_range_lines sr)
      → In line (listener_lines d (k, sp))
  unfolding listener_lines
  In-source_range sr line m tcp i =
      let rest = In-source_ranges d.source_ranges sr line m i in
      In-append_right line (listener_head k sp) _ (
        rw tcp (
          In-append_right line (tcp_chain k) _
            (In-append_right line (tcp_affinity d.session_affinity) _ rest)))

  -- A listener that is not UDP carries both lines of each source range.
  pub source_ranges_on_tcp :
      (sr : SourceRange) (line : String)
      → Dict.lookup k d.service_ports ≡ some sp
      → In sr d.source_ranges
      → sp.listener.protocol ≢ "UDP"
      → In line (source_range_lines sr)
      → In line (template_lines lds d)
  source_ranges_on_tcp sr line found m tcp i =
      In-lds line found (In-source_range sr line m (==-ne _ _ tcp) i)

  -- What a UDP listener is rendered to does not depend on the source ranges: traffic to it is
  -- not restricted.
  pub source_ranges_not_on_udp :
      (ranges : List SourceRange)
      → sp.listener.protocol ≡ "UDP"
      → listener_lines (record d { source_ranges = ranges }) (k, sp) ≡ listener_lines d (k, sp)
  unfolding listener_lines
  source_ranges_not_on_udp ranges udp =
      let test : (sp.listener.protocol == "UDP") ≡ true = rw udp (==-self {A = String} "UDP") in
      rw test
