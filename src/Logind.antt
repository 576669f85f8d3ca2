-- ===== src/Logind.antt =====
-- quantra-logind/src: sessions, users, seats and inhibitors of the login manager.
pub mod Types
pub mod Config
pub mod Listing
pub mod Control
pub mod Inhibitor
pub mod Session
pub mod Seat
pub mod User
pub mod Power
mod Samples
