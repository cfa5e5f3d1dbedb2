-- ===== src/Actions.antt =====
-- Actions on a decision (src/services/actions.ts).
pub mod Table
pub mod Approved
pub mod Executions
pub mod Rejections
pub mod Examples
