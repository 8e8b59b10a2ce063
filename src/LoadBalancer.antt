-- ===== src/LoadBalancer.antt =====
-- pkg/loadbalancer: the load balancer of a service is one container that runs envoy.
pub mod Names
pub mod Proxy
pub mod Address
pub mod Tunnel
pub mod Server
