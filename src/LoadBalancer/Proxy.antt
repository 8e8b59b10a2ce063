-- ===== src/LoadBalancer/Proxy.antt =====
-- pkg/loadbalancer/proxy.go: envoy's configuration and how it reaches the container.
pub mod Config
pub mod Template
pub mod Update
