-- ===== src/LoadBalancer/Server/Status.antt =====
-- What `GetLoadBalancer` reports.
use cloud_provider_kind.Base.{
  String, ◌<>◌, ◌==◌, string_eq, contains, Bool-cases, ne_of_==, ==-ne, ◌≡◌, ◌≢◌, ◌↔◌, refl, [],
  ◌∷◌, map, ◌⊎◌, inl, inr, In, In-append, In-append_left, In-append_right,
}
use cloud_provider_kind.Base.Entries.{In-of_contains, contains_of_In}
use cloud_provider_kind.Api.{Service, Ingress}
use cloud_provider_kind.LoadBalancer.Names.{load_balancer_name}
use cloud_provider_kind.LoadBalancer.Server.{
  ingress_of, status_of, lookup_of, ensured, ensure_status,
}
use cloud_provider_kind.World.{Err, errorf, ok, err, Result-cases, Env, World}
use cloud_provider_kind.Container.{ips}

-- The ingress of an address lists every port of the service.
abbrev pub IsIngress : Service → String → String → Ingress → Type 0
IsIngress service family ip i =
    (ip ≢ "")
    × In family service.ip_families
    × (i ≡ record {
      ip = ip;
      ip_mode = "Proxy";
      ports = map (λ p. record { port = p.port; protocol = p.protocol }) service.ports;
    })

module _ (service : Service) (family ip : String) (i : Ingress) where
  ingress_of_sound : In i (ingress_of service family ip) → IsIngress service family ip i
  unfolding ingress_of
  ingress_of_sound m = elim (Bool-cases (ip == "")) [
    | inl empty ↦ absurd (rw empty at m)
    | inr given ↦ elim (Bool-cases (contains service.ip_families family)) [
      | inr outside ↦ absurd (rw (given, outside) at m)
      | inl inside ↦ (
        ne_of_== ip "" given,
        In-of_contains service.ip_families family inside,
        elim (In-one (rw (given, inside) at m)) [ inl e ↦ e | inr none_left ↦ absurd none_left ],
      )
    ]
  ]
    where
      In-one : {x : Ingress} → In i (x ∷ []) → (i ≡ x) ⊎ ⊥
      In-one h = h

  ingress_of_complete : IsIngress service family ip i → In i (ingress_of service family ip)
  unfolding ingress_of
  ingress_of_complete (given, f, e) =
      rw (==-ne ip "" given, contains_of_In service.ip_families family f) (inl e)

-- The status has an ingress for exactly those addresses of the container that are there and whose
-- family the service has, each with all the ports of the service.
pub status_of_iff :
    (service : Service) (ipv4 ipv6 : String) (i : Ingress)
    → In i (status_of service (ipv4, ipv6)).ingress
      ↔ (IsIngress service "IPv4" ipv4 i ⊎ IsIngress service "IPv6" ipv6 i)
unfolding status_of
status_of_iff service ipv4 ipv6 i = (
  λ m. elim (In-append i _ _ m) [
    | inl first ↦ inl (ingress_of_sound service "IPv4" ipv4 i first)
    | inr second ↦ inr (ingress_of_sound service "IPv6" ipv6 i second)
  ],
  λ h. elim h [
    | inl first ↦ In-append_left i _ _ (ingress_of_complete service "IPv4" ipv4 i first)
    | inr second ↦ In-append_right i _ _ (ingress_of_complete service "IPv6" ipv6 i second)
  ],
)

lookup_of-ok :
    (service : Service) (both : String × String) (name : String)
    → ensured name (lookup_of service (ok both)) ≡ ok (status_of service both)
unfolding lookup_of ensured
lookup_of-ok service both name = refl

lookup_of-error :
    (service : Service) (x : Err) (name : String)
    → ensured name (lookup_of service (err x))
      ≡ err (errorf ("loadbalancer " <> (name <> " not found")))
unfolding lookup_of ensured
lookup_of-error service x name = refl

-- The last part of `EnsureLoadBalancer` has a status exactly if the addresses of the container can be
-- read.
-- Whatever error reading them has, the error that it returns is that there is no load balancer.
pub ensure_status_lem :
    (cluster_name : String) (service : Service) (e : Env) (w : World)
    → let name = load_balancer_name cluster_name service in
      ((both : String × String) × ((ips name e w).0 ≡ ok both)
        × ((ensure_status cluster_name service e w).0 ≡ ok (status_of service both)))
      ⊎ ((x : Err) × ((ips name e w).0 ≡ err x)
          × ((ensure_status cluster_name service e w).0
              ≡ err (errorf ("loadbalancer " <> (name <> " not found")))))
unfolding ensure_status
ensure_status_lem cluster_name service e w =
    elim (Result-cases (ips (load_balancer_name cluster_name service) e w).0) [
      | inl (both, h) ↦ inl (both, h, rw h (lookup_of-ok service both _))
      | inr (x, h) ↦ inr (x, h, rw h (lookup_of-error service x _))
    ]
