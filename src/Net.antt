-- ===== src/Net.antt =====
-- runtime/pullrun-net: addresses for workloads, and the firewall rules of their bridges.
pub mod IpRange
pub mod Ipam
pub mod Firewall
pub mod Dns
mod Tests
mod DnsTests
mod FirewallTests
