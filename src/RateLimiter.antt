-- ===== src/RateLimiter.antt =====
-- src/services/rateLimiter.ts: the hierarchical token buckets of one process.
pub mod Bucket
pub mod Store
pub mod Consume
pub mod Invariant
pub mod Touching
pub mod Entries
pub mod Shrink
pub mod Eviction
pub mod Room
pub mod Admission
pub mod Settlement
pub mod Sound
pub mod Rate
mod Examples
