-- ===== src/Schedules.antt =====
-- src/services/timezoneSchedule.ts, src/services/insightFeedWorker.ts: the next time of a daily or weekly
-- schedule in a time zone.
pub mod Occurrence
pub mod Found
pub mod Plan
pub mod Seeded
pub mod Steady
mod Examples
