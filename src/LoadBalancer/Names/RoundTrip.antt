-- ===== src/LoadBalancer/Names/RoundTrip.antt =====
-- The label of a container names its service, and the name of a container is made of its label.
use cloud_provider_kind.Base.{String, ◌<>◌, char_eq, some, List, [], ◌∷◌, ◌≡◌, ◌∙◌}
use cloud_provider_kind.Base.Text.{
  split, Lacks, split-append, split-Lacks, join, join-split, singleton-append,
}
use cloud_provider_kind.Api.{Service, named_service}
use cloud_provider_kind.LoadBalancer.Names.{
  load_balancer_simple_name, service_of_parts, service_from_load_balancer_simple_name,
}

slash-append : (t : String) → "/" <> t ≡ String.◌∷◌ "/" t
slash-append t = singleton-append "/" t

split_three :
    (a b c : String)
    → Lacks "/" a
    → Lacks "/" b
    → Lacks "/" c
    → split (a <> ("/" <> (b <> ("/" <> c)))) "/" ≡ a ∷ b ∷ c ∷ []
split_three a b c ha hb hc = rw (
  slash-append c,
  slash-append _,
  split-append a "/" _ ha,
  split-append b "/" _ hb,
  split-Lacks c "/" hc,
)

-- The label of a container is read back as the cluster and the service that it was made of, if
-- no part of it holds a slash.
pub service_from-simple_name :
    (cluster_name : String) (service : Service)
    → Lacks "/" cluster_name
    → Lacks "/" service.namespace
    → Lacks "/" service.name
    → service_from_load_balancer_simple_name (load_balancer_simple_name cluster_name service)
      ≡ (cluster_name, some (named_service service.namespace service.name))
unfolding service_from_load_balancer_simple_name load_balancer_simple_name
service_from-simple_name cluster_name service hc hn hs =
    rw (split_three cluster_name service.namespace service.name hc hn hs)

of_parts :
    (parts : List String) (cluster_name : String) (service : Service)
    → service_of_parts parts ≡ (cluster_name, some service)
    → load_balancer_simple_name cluster_name service ≡ join parts "/"
unfolding load_balancer_simple_name join
of_parts [] c s h = cc
of_parts (p ∷ []) c s h = cc
of_parts (p ∷ q ∷ []) c s h = cc
of_parts (p ∷ q ∷ r ∷ []) c s h =
    let service : named_service q r ≡ s = cc in
    let cluster : p ≡ c = cc in rw (← service, ← cluster, slash-append r, slash-append _)
of_parts (p ∷ q ∷ r ∷ t ∷ ts) c s h = cc

-- Whatever text a label holds, a service that is read from it has that text for its simple name.
pub simple_name-service_from :
    (label : String) (cluster_name : String) (service : Service)
    → service_from_load_balancer_simple_name label ≡ (cluster_name, some service)
    → load_balancer_simple_name cluster_name service ≡ label
unfolding service_from_load_balancer_simple_name
simple_name-service_from label cluster_name service h =
    of_parts (split label "/") cluster_name service h ∙ join-split label "/"
