-- ===== src/Providers.antt =====
-- What the clients of the model providers share: backend/crates/ai-providers.
pub mod Contract
pub mod Registry
pub mod Sse
