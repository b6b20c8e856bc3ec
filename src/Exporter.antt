-- ===== src/Exporter.antt =====
-- The parts together: the service watcher of pkg/controller/service_watcher.go at work on the Consul
-- target of pkg/controller/consul_target.go, and what that makes of the key-value store.
pub mod Keeps
pub mod Region
pub mod Publish
pub mod Withdraw
pub mod Update
pub mod Clear
pub mod Replace
pub mod Examples
