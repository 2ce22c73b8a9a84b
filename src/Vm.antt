-- ===== src/Vm.antt =====
-- runtime/pullrun-vm: the pool of virtual machines that are booted ahead.
pub mod Pool
pub mod Quote
mod Tests
