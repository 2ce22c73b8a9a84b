-- ===== src/Store.antt =====
-- runtime/pullrun-store: digests, and the blobs with their cache.
pub mod Digest
pub mod Blobs
pub mod Dag
pub mod Nodes
pub mod Walk
pub mod OpLock
pub mod RemoveTag
pub mod Recount
mod Tests
mod PutTests
