-- ===== src/Authz/Role.antt =====
-- Roles and their names: backend/crates/modules/authz/src/role.rs, and `PlatformRole` of
-- backend/crates/modules/identity/src/lib.rs. The texts of the errors are left out.
use customer_service_chat_sy.Base.{
  ◌≡◌, some, none, Option, ◌==◌, Text, codes, text_eq, if◌then◌else◌, text_beq_iff, arith, ◌↔◌,
}

-- Tenant-scoped roles, stored on active memberships.
pub data TenantRole : Type 0 where
  owner admin manager agent viewer : TenantRole

-- `Display`.
abbrev pub role_text : TenantRole → Text
role_text owner = codes "owner"
role_text admin = codes "admin"
role_text manager = codes "manager"
role_text agent = codes "agent"
role_text viewer = codes "viewer"

-- `FromStr`; `none` is its error.
unfoldable pub role_from_text : Text → Option TenantRole
role_from_text t =
    if t == codes "owner"
    then some owner
    else if t == codes "admin"
    then some admin
    else if t == codes "manager"
    then some manager
    else if t == codes "agent"
    then some agent
    else if t == codes "viewer"
    then some viewer
    else none

-- Roles of the platform's own staff.
pub data PlatformRole : Type 0 where
  super_admin developer sales support finance : PlatformRole

abbrev pub platform_role_text : PlatformRole → Text
platform_role_text super_admin = codes "super_admin"
platform_role_text developer = codes "developer"
platform_role_text sales = codes "sales"
platform_role_text support = codes "support"
platform_role_text finance = codes "finance"

pub platform_role_from_text : Text → Option PlatformRole
platform_role_from_text t =
    if t == codes "super_admin"
    then some super_admin
    else if t == codes "developer"
    then some developer
    else if t == codes "sales"
    then some sales
    else if t == codes "support"
    then some support
    else if t == codes "finance"
    then some finance
    else none

-- A text names a tenant role exactly when it is that role's text.
pub role_from_text_iff :
    (t : Text) (r : TenantRole) → (role_from_text t ≡ some r) ↔ (t ≡ role_text r)
unfolding role_from_text
role_from_text_iff t r = ground (
  arith,
  text_beq_iff t (codes "owner"),
  text_beq_iff t (codes "admin"),
  text_beq_iff t (codes "manager"),
  text_beq_iff t (codes "agent"),
  text_beq_iff t (codes "viewer"),
)

-- A text names a platform role exactly when it is that role's text.
pub platform_role_from_text_iff :
    (t : Text) (r : PlatformRole)
    → (platform_role_from_text t ≡ some r) ↔ (t ≡ platform_role_text r)
unfolding platform_role_from_text
platform_role_from_text_iff t r = ground (
  arith,
  text_beq_iff t (codes "super_admin"),
  text_beq_iff t (codes "developer"),
  text_beq_iff t (codes "sales"),
  text_beq_iff t (codes "support"),
  text_beq_iff t (codes "finance"),
)
