-- ===== src/Dhcp.antt =====
-- quantra-net/quantra-netd/src/dhcp.rs: the DHCPv4 client.
pub mod Packet
pub mod Reply
pub mod Options
pub mod Meaning
pub mod Roundtrip
pub mod Requests
pub mod Handshake
pub mod Events
pub mod Exchange
pub mod Answers
pub mod Lease
mod Samples
