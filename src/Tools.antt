-- ===== src/Tools.antt =====
-- The tools that the assistant may call: backend/crates/modules/tools.
pub mod Model
pub mod Address
pub mod Json
pub mod Validation
pub mod Policy
pub mod Approval
mod Examples
