-- ===== src/Escalations.antt =====
-- Who takes over a conversation: backend/crates/modules/escalations.
pub mod Presence
pub mod Rows
pub mod Transaction
pub mod Candidates
pub mod Views
pub mod Statements
pub mod Consistent
pub mod Kept
pub mod Routing
pub mod Claim
pub mod Drain
pub mod Closing
pub mod Steps
