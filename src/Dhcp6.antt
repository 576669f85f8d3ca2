-- ===== src/Dhcp6.antt =====
-- quantra-net/quantra-netd/src/ipv6.rs: the DHCPv6 client.
pub mod Packet
pub mod Reply
pub mod Roundtrip
pub mod Handshake
pub mod Events
pub mod Exchange
pub mod Lease
mod Samples
