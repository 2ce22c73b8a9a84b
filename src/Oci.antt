-- ===== src/Oci.antt =====
-- runtime/pullrun-oci/src/dockerfile.rs: the Dockerfile parser, on ASCII text.
pub mod Words
pub mod Lines
pub mod Instruction
pub mod Dockerfile
mod Tests
