-- ===== src/Runtime/Run.antt =====
-- runtime/pullrun-runtime/src/service.rs: `run_workload` as it is built for Linux.
pub mod Request
pub mod Monad
pub mod Checks
pub mod Staging
pub mod Handler
pub mod Rejected
pub mod Accepted
pub mod Runs
