-- ===== src/Probes.antt =====
-- src/probes/mod.rs: the task of each node, the set of probed nodes, the discovery loop, and the whole of
-- tasks and discoveries.
pub mod Node
pub mod Services
pub mod Watch
pub mod System
