-- ===== src/Contracts.antt =====
-- Measurement contracts (src/services/contracts.ts).
pub mod Declaration
pub mod Anchored
