-- ===== src/Releases.antt =====
-- The life of a release (src/services/releases.ts and src/services/decisions.ts).
pub mod Table
pub mod Sha
pub mod Register
pub mod Transition
pub mod Ledger
pub mod Writes
pub mod Invariant
pub mod Changes
pub mod Lifecycle
pub mod Retry
pub mod Kept
pub mod Repeat
pub mod Outcome
pub mod Examples
