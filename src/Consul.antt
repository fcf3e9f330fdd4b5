-- ===== src/Consul.antt =====
-- src/consul/mod.rs: the discovery of the nodes to probe.
pub mod Node
pub mod Json
pub mod Extract
pub mod Http
