-- ===== src/LoadBalancer/Proxy/Template/Order.antt =====
-- The rendered texts do not depend on the order of a service's families and ports.
use cloud_provider_kind.Base.{
  String, ◌<>◌, ◌≡◌, refl, sym, ap, ◌∙◌, Bool-cases, some, none, Option, List, [], ◌∷◌, ◌↔◌, inl,
  inr, In,
}
use cloud_provider_kind.Base.Dict
use cloud_provider_kind.Base.Dict.{Dict, sorted}
use cloud_provider_kind.Base.Sorted.{HasDistinctKeys, insert-HasDistinctKeys, sorted_unique}
use cloud_provider_kind.Api.{Service, SpecPort, Node}
use cloud_provider_kind.World.{ok, Net}
use cloud_provider_kind.LoadBalancer.Proxy.Config.{
  ServicePort, ProxyConfigData, is_supported, add_ports, add_families, health_check_port,
  config_data,
}
use cloud_provider_kind.LoadBalancer.Proxy.Config.Listeners.{
  HasPlainFamilies, HasDistinctPorts, supported_complete, supported_sound,
}
use cloud_provider_kind.LoadBalancer.Proxy.Template.{
  Template, lds, cds, each, listener_lines, cluster_lines, template_lines, unlines, proxy_config,
}

same_option {ℓ} :
    {A : Type ℓ} (o p : Option A)
    → ((v : A) → o ≡ some v → p ≡ some v)
    → ((v : A) → p ≡ some v → o ≡ some v)
    → o ≡ p
same_option (some v) p to from = sym (to v refl)
same_option none none to from = refl
same_option none (some v) to from = from v refl

module _ (net : Net) (nodes : List Node) where
  add_ports-HasDistinctKeys :
      (f : String) (ports : List SpecPort) (d : Dict ServicePort)
      → HasDistinctKeys d
      → HasDistinctKeys (add_ports net f ports nodes d)
  unfolding add_ports
  add_ports-HasDistinctKeys f [] d h = h
  add_ports-HasDistinctKeys f (p ∷ ports) d h = elim (Bool-cases (is_supported p)) [
    | inl s ↦ rw s (add_ports-HasDistinctKeys f ports _ (insert-HasDistinctKeys _ _ d h))
    | inr s ↦ rw s (add_ports-HasDistinctKeys f ports d h)
  ]

  add_families-HasDistinctKeys :
      (families : List String) (ports : List SpecPort) (d : Dict ServicePort)
      → HasDistinctKeys d
      → HasDistinctKeys (add_families net families ports nodes d)
  unfolding add_families
  add_families-HasDistinctKeys [] ports d h = h
  add_families-HasDistinctKeys (f ∷ families) ports d h =
      add_families-HasDistinctKeys families ports _ (add_ports-HasDistinctKeys f ports d h)

  config_data-HasDistinctKeys :
      (s : Service) → HasDistinctKeys (config_data net s nodes).service_ports
  unfolding config_data HasDistinctKeys
  config_data-HasDistinctKeys s = add_families-HasDistinctKeys s.ip_families s.ports [] tt

  -- A listener of a service is one of every service that has its families and ports.
  listener_carries :
      (s t : Service) (k : String) (v : ServicePort)
      → HasPlainFamilies t.ip_families
      → HasDistinctPorts t.ports
      → ((f : String) → In f s.ip_families → In f t.ip_families)
      → ((p : SpecPort) → In p s.ports → In p t.ports)
      → Dict.lookup k (config_data net s nodes).service_ports ≡ some v
      → Dict.lookup k (config_data net t nodes).service_ports ≡ some v
  listener_carries s t k v plain distinct families ports h =
      let (f, fm, (p, pm, supported, key, value)) = supported_sound net s nodes k v h in
      rw (key, value)
        (supported_complete net t nodes f p plain distinct (families f fm) (ports p pm) supported)

  same_lookups :
      (s t : Service)
      → HasPlainFamilies s.ip_families
      → HasDistinctPorts s.ports
      → ((f : String) → In f s.ip_families ↔ In f t.ip_families)
      → ((p : SpecPort) → In p s.ports ↔ In p t.ports)
      → (k : String)
      → Dict.lookup k (config_data net t nodes).service_ports
        ≡ Dict.lookup k (config_data net s nodes).service_ports
  same_lookups s t plain distinct families ports k =
      same_option _ _
        (λ v. listener_carries t s k v plain distinct (λ f. (families f).1) (λ p. (ports p).1))
        (λ v.
          listener_carries s t k v (λ f m. plain f ((families f).1 m))
            (λ p q pm qm. distinct p q ((ports p).1 pm) ((ports q).1 qm)) (λ f. (families f).0)
            (λ p. (ports p).0))

each_same {ℓ} :
    {A : Type ℓ} (f g : A → List String) (l : List A) → ((x : A) → f x ≡ g x) → each f l ≡ each g l
unfolding each
each_same f g [] same = refl
each_same f g (x ∷ l) same = rw (same x, each_same f g l same) refl

template_lines_same :
    (t : Template) (d : ProxyConfigData) (ports : Dict ServicePort)
    → sorted ports ≡ sorted d.service_ports
    → template_lines t (record d { service_ports = ports }) ≡ template_lines t d
unfolding template_lines listener_lines cluster_lines
template_lines_same lds d ports same =
    ap (λ l. "resources:" ∷ l)
      (each_same _ (listener_lines d) (sorted ports) (λ x. refl)
        ∙ ap (each (listener_lines d)) same)
template_lines_same cds d ports same =
    ap (λ l. "resources:" ∷ l)
      (each_same _ (cluster_lines d) (sorted ports) (λ x. refl) ∙ ap (each (cluster_lines d)) same)

-- The two texts that envoy reads do not depend on the order in which a service lists its families
-- and its ports, nor on whether one comes twice, if no two of the ports agree in number and
-- protocol and no family holds an underscore.
pub proxy_config_ignores_order :
    (t : Template) (net : Net) (service : Service) (nodes : List Node) (families : List String)
    (ports : List SpecPort)
    → HasPlainFamilies service.ip_families
    → HasDistinctPorts service.ports
    → ((f : String) → In f service.ip_families ↔ In f families)
    → ((p : SpecPort) → In p service.ports ↔ In p ports)
    → let service' = record service { ip_families = families; ports = ports } in
      proxy_config t (config_data net service' nodes)
      ≡ proxy_config t (config_data net service nodes)
unfolding proxy_config config_data health_check_port
proxy_config_ignores_order t net service nodes families ports plain distinct fs ps =
    let service' : Service = record service { ip_families = families; ports = ports } in
    let same =
      sorted_unique _ _ (config_data-HasDistinctKeys net nodes service')
        (config_data-HasDistinctKeys net nodes service)
        (same_lookups net nodes service service' plain distinct fs ps) in
    ap (λ (l : List String). ok (unlines l <> "\n"))
      (template_lines_same t (config_data net service nodes)
        (config_data net service' nodes).service_ports same)
