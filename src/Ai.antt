-- ===== src/Ai.antt =====
-- The assistant's decisions that are made outside the model: backend/crates/modules/ai.
pub mod AgentRules
pub mod Resolution
pub mod Service
pub mod Completion
pub mod Prompt
mod Examples
