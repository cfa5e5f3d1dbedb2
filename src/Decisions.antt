-- ===== src/Decisions.antt =====
-- src/services/evaluation.ts and src/services/decisions.ts: the evidence of a release and its review.
pub mod Evidence
pub mod Verdict
pub mod Tables
pub mod Calls
pub mod Changes
pub mod Evaluations
pub mod Revisions
pub mod Invariant
pub mod Kept
pub mod Runs
pub mod Reviews
pub mod Course
pub mod Settled
pub mod Repeats
pub mod Stored
pub mod Again
pub mod Queue
pub mod Selected
pub mod Order
mod Examples
pub mod Outcomes
pub mod Ready
