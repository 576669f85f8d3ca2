-- ===== src/Resolver.antt =====
-- quantra-net/quantra-netd/src/resolver.rs: the DNS resolver.
pub mod Message
pub mod Answers
pub mod Roundtrip
mod Samples
pub mod Lookup
pub mod Fallback
pub mod Cache
pub mod Refines
