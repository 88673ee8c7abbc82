-- ===== src/Benchmark.antt =====
-- src/fingerprint_benchmark: one manifest's pairs run through a matcher, and the result published.
pub mod Floats
pub mod Json
pub mod Contract
pub mod Client
pub mod Adapter
pub mod Manifest
pub mod Runner
pub mod Bundle
pub mod Sidecar
pub mod Sample
mod Tests
