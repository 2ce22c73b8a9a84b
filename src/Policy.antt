-- ===== src/Policy.antt =====
-- runtime/pullrun-policy: whether a workload may run an image.
pub mod Signature
pub mod Sbom
pub mod Engine
pub mod Sound
pub mod Binding
pub mod Decision
pub mod Scores
mod Tests
