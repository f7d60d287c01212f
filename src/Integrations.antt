-- ===== src/Integrations.antt =====
-- Inbound webhooks of a tenant's integrations: backend/crates/modules/integrations.
pub mod Model
pub mod Crypto
pub mod Tables
pub mod Webhook
mod Examples
