-- ===== src/BufferedStore.antt =====
-- src/stores/bufferedEventStore.ts: appends gathered into batches, and idempotent appends in a queue.
pub mod State
pub mod Steps
pub mod Share
pub mod Batching
pub mod Pumping
pub mod Safety
pub mod Order
pub mod Answers
pub mod Queueing
pub mod Promises
mod Examples
