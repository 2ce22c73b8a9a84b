-- ===== src/Sync.antt =====
-- runtime/pullrun-sync: how nodes tell each other which blobs they hold, and exchange them.
pub mod Bloom
pub mod Delta
pub mod BlockSync
pub mod Puller
pub mod Gossip
mod Tests
mod TransferTests
mod GossipTests
