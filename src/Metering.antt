-- ===== src/Metering.antt =====
-- src/stores/postgresEventStore.ts and src/services/usageEntitlements.ts: what accepted events count for.
pub mod Table
pub mod Insert
pub mod Batches
pub mod Entitlements
pub mod Calls
pub mod Counts
pub mod Caps
pub mod Rows
pub mod Taken
pub mod Stale
mod Examples
