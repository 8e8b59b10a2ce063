-- ===== src/LoadBalancer/Names.antt =====
-- How pkg/loadbalancer/server.go names the container of a service, and labels it.
pub mod Shape
pub mod RoundTrip
use cloud_provider_kind.Base.{String, ◌<>◌, Option, none, some, List, [], ◌∷◌, ◌≡◌, refl}
use cloud_provider_kind.Base.Base32.{encode_to_string}
use cloud_provider_kind.Base.Sha256.{sha256}
use cloud_provider_kind.Base.Text.{split, take}
use cloud_provider_kind.Api.{Service, named_service}
use cloud_provider_kind.Config.{container_prefix}

unfoldable pub load_balancer_simple_name : String → Service → String
load_balancer_simple_name cluster_name service =
    cluster_name <> ("/" <> (service.namespace <> ("/" <> service.name)))

-- The hash of a simple name in 40 characters.
unfoldable pub hash_name : String → String
unfolding encode_to_string sha256 take
hash_name simple_name = take 40 (encode_to_string (sha256 simple_name))

unfoldable pub load_balancer_name : String → Service → String
load_balancer_name cluster_name service =
    (container_prefix <> "-") <> hash_name (load_balancer_simple_name cluster_name service)

-- The parts of a simple name; the result is empty where there are not three.
abbrev service_of_parts : List String → String × Option Service
service_of_parts (cluster_name ∷ namespace ∷ name ∷ []) =
    (cluster_name, some (named_service namespace name))
service_of_parts parts = ("", none)

unfoldable pub service_from_load_balancer_simple_name : String → String × Option Service
unfolding split
service_from_load_balancer_simple_name s = service_of_parts (split s "/")

-- The case of `TestLoadBalancerName`.
name_of_test_service :
    load_balancer_name "test-cluster" (named_service "test-namespace" "test-service")
    ≡ "kindccm-CGVXJAVBASN2Z3RXOABMYVHNP7WNHR3ATSDVOTEN"
unfolding load_balancer_name hash_name load_balancer_simple_name
name_of_test_service = refl
