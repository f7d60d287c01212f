-- ===== src/Authz/Guard.antt =====
-- The guard of a route: backend/crates/modules/authz/src/guard.rs.
use customer_service_chat_sy.Base.{
  Bool, false, List, [], Option, none, some, contains, if◌then◌else◌,
}
use customer_service_chat_sy.Authz.Role.{PlatformRole}
use customer_service_chat_sy.Authz.Permission.{Permission, permission_eq}
use customer_service_chat_sy.Authz.Matrix.{platform_role_permissions}

-- `identity::Principal`, less the user's names.
pub record Principal : Type 0 where
  pub platform_role : Option PlatformRole
  pub invalid_platform_role : Bool

-- The request's extensions that the guard reads.
pub record Extensions : Type 0 where
  pub principal : Option Principal
  pub permissions : Option (List Permission)

-- `PermissionSet::contains`, over the set's elements.
unfoldable pub set_contains : List Permission → Permission → Bool
unfolding contains
set_contains set p = contains set p

abbrev pub role_of : Option Principal → Option PlatformRole
role_of none = none
role_of (some p) = p.platform_role

abbrev pub permissions_of : Option PlatformRole → List Permission
permissions_of none = []
permissions_of (some role) = platform_role_permissions role

-- `platform_permission_middleware`: what it attaches to the request.
unfoldable pub platform_permission_middleware : Extensions → Extensions
platform_permission_middleware request = record request {
  permissions = some (permissions_of (role_of request.principal));
}

pub data Outcome : Type 0 where
  next : Outcome  -- the handler runs
  access_denied : Outcome  -- 403

abbrev set_allows : Option (List Permission) → Permission → Bool
set_allows none required = false
set_allows (some set) required = set_contains set required

-- `permission_guard`.
unfoldable pub permission_guard : Permission → Extensions → Outcome
permission_guard required request =
    if set_allows request.permissions required then next else access_denied
