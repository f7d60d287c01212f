-- ===== src/Tenancy/Ranks.antt =====
-- The ranks of the tenant roles: `role_rank` to `staff_effective_rank` of
-- backend/crates/modules/tenancy/src/members.rs.
use customer_service_chat_sy.Base.{
  ℕ, Bool, ◌&&◌, ◌||◌, List, Option, none, some, eqb, ltb, leb, if◌then◌else◌,
}
use customer_service_chat_sy.Authz.Role.{TenantRole}
use customer_service_chat_sy.Authz.Permission.{Permission, owner_assign, members_manage}
use customer_service_chat_sy.Authz.Guard.{set_contains}

abbrev pub role_rank : TenantRole → ℕ
role_rank TenantRole.owner = 5
role_rank TenantRole.admin = 4
role_rank TenantRole.manager = 3
role_rank TenantRole.agent = 2
role_rank TenantRole.viewer = 1

abbrev pub can_manage : (actor_role target_role : TenantRole) → Bool
can_manage actor_role target_role =
    ltb (role_rank target_role) (role_rank actor_role)
    || (eqb (role_rank actor_role) 5 && eqb (role_rank target_role) 5)

abbrev pub can_assign : (actor_role new_role : TenantRole) → Bool
can_assign actor_role new_role = leb (role_rank new_role) (role_rank actor_role)

abbrev pub staff_effective_rank : List Permission → Option ℕ
staff_effective_rank permissions =
    if set_contains permissions owner_assign
    then some 5
    else if set_contains permissions members_manage
    then some 4
    else none

-- What `lib.rs` attaches to a request inside a tenant, as far as the handlers here read it.
pub record TenantContext : Type 0 where
  pub tenant_id : ℕ
  pub tenant_role : Option TenantRole
  pub permissions : List Permission

-- The match on the effective rank.
abbrev pub role_of_rank : Option ℕ → Option TenantRole
role_of_rank none = none
role_of_rank (some rank) =
    if eqb rank 5 then some TenantRole.owner else if eqb rank 4 then some TenantRole.admin else none

-- The actor's role: the member's own, or that of the rank of platform staff.
abbrev pub actor_role : TenantContext → Option TenantRole
actor_role ctx = elim ctx.tenant_role [
  | none ↦ role_of_rank (staff_effective_rank ctx.permissions)
  | some role ↦ some role
]
