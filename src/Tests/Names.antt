-- ===== src/Tests/Names.antt =====
-- The names at concrete services.
use cloud_provider_kind.Base.{char_eq, ◌≡◌, refl, some}
use cloud_provider_kind.Base.Text.{Lacks-of_lacks}
use cloud_provider_kind.Api.{named_service}
use cloud_provider_kind.LoadBalancer.Names.{
  load_balancer_simple_name, service_from_load_balancer_simple_name,
}
use cloud_provider_kind.LoadBalancer.Names.RoundTrip.{service_from-simple_name}
use cloud_provider_kind.Tests.Fixtures.{service}

service_from-simple_name_example :
    service_from_load_balancer_simple_name (load_balancer_simple_name "kind" service)
    ≡ ("kind", some (named_service "default" "web"))
service_from-simple_name_example =
    service_from-simple_name "kind" service (Lacks-of_lacks "/" "kind" refl)
      (Lacks-of_lacks "/" "default" refl) (Lacks-of_lacks "/" "web" refl)

label_is_read : service_from_load_balancer_simple_name "a/b/c" ≡ ("a", some (named_service "b" "c"))
unfolding service_from_load_balancer_simple_name char_eq
label_is_read = refl
