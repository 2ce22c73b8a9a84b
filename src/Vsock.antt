-- ===== src/Vsock.antt =====
-- runtime/pullrun-vsock/src/lib.rs: the frames between host and guest, and their codec.
pub mod Frame
pub mod Cursor
pub mod Codec
pub mod Stream
pub mod RoundTrip
pub mod Rejects
mod Tests
