-- ===== src/Timers.antt =====
-- Kernel time and the callout queue of the user-space port: uspace/timers.c.
pub mod TimeVal
pub mod Callout
pub mod Time
pub mod Queue
pub mod Arming
pub mod Early
pub mod Runs
mod Tests
