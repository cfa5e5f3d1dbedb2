-- ===== src/QueryCache.antt =====
-- The cache of repeated queries (src/services/queryCache.ts).
pub mod Cache
pub mod Keys
pub mod Fresh
pub mod Size
pub mod Examples
