-- ===== src/Monitor.antt =====
-- The release monitor (src/services/releaseMonitor.ts).
pub mod Tables
pub mod Passes
pub mod Attempts
pub mod Settled
pub mod Progress
pub mod Claims
pub mod Examples
