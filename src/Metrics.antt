-- ===== src/Metrics.antt =====
-- Package metrics: the adapter of the writer's flush hook and the middleware of HTTP requests.
pub mod Flushes
pub mod Requests
pub mod Registry
mod Tests
