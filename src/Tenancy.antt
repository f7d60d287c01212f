-- ===== src/Tenancy.antt =====
-- The members of a tenant and how they come to it: backend/crates/modules/tenancy.
pub mod Ranks
pub mod Roster
pub mod Members
pub mod Invitations
mod Examples
