-- ===== src/Flags.antt =====
-- Feature flags (src/services/flags.ts).
pub mod Variants
pub mod Table
pub mod Buckets
pub mod Intervals
pub mod Frozen
pub mod Examples
