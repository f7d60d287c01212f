-- ===== src/Authz.antt =====
-- Authorization: roles, permissions, the grants of each role and the route guard
-- (backend/crates/modules/authz, with `PlatformRole` and `Principal` of backend/crates/modules/identity).
pub mod Role
pub mod Permission
pub mod Matrix
pub mod Guard
pub mod Grants
mod Examples
