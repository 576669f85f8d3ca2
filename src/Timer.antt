-- ===== src/Timer.antt =====
-- quantra/src/services/timer.rs: calendar schedules of the timer units, and their delays.
pub mod Calendar
pub mod Trigger
pub mod Next
pub mod Parse
pub mod Delay
mod Samples
