-- ===== src/Runtime.antt =====
-- runtime/pullrun-runtime: the event log and the daemon's workloads.
pub mod Events
pub mod Names
pub mod Exec
pub mod Network
pub mod Validate
pub mod ExitCode
pub mod State
pub mod Restart
pub mod Watcher
pub mod Stop
pub mod Health
pub mod Recovery
pub mod Run
pub mod Prune
pub mod Lifecycle
pub mod Images
mod RunTests
mod Tests
