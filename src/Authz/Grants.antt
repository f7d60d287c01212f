-- ===== src/Authz/Grants.antt =====
-- What the roles may do: the hierarchy of the tenant roles, the two scopes, platform staff in
-- production, and the guard behind the platform middleware.
use customer_service_chat_sy.Base.{
  Bool, true, false, not, ◌||◌, ◌≡◌, refl, ◌↔◌, ◌⊎◌, List, [], ◌∷◌, Option, none, some, all, arith,
  inl, inr, leb,
}
use customer_service_chat_sy.Authz.Role.{TenantRole, PlatformRole}
use customer_service_chat_sy.Tenancy.Ranks.{role_rank}
use customer_service_chat_sy.Authz.Permission.{
  Permission, permission_eq, all_permissions, by_table, conversations_manage, customers_manage,
  ai_agent_manage, knowledge_base_manage, integrations_manage, members_manage, settings_manage,
  billing_manage, tenant_delete, owner_assign, widgets_manage,
}
use customer_service_chat_sy.Authz.Matrix.{
  tenant_role_permissions, platform_role_permissions, staff_tenant_permissions,
}
use customer_service_chat_sy.Authz.Guard.{
  set_contains, Extensions, role_of, permissions_of, platform_permission_middleware,
  permission_guard, next,
}

abbrev implies : Bool → Bool → Bool
implies a b = not a || b

abbrev within : List Permission → List Permission → Permission → Bool
within ps qs p = implies (set_contains ps p) (set_contains qs p)

abbrev pub grants : TenantRole → Permission → Bool
grants r p = set_contains (tenant_role_permissions r) p

-- The role stands at or below the other by `role_rank`, and the two are not the viewer and the agent.
abbrev pub ranks_within : TenantRole → TenantRole → Bool
ranks_within TenantRole.viewer TenantRole.agent = false
ranks_within r s = leb (role_rank r) (role_rank s)

ranks_within_table :
    (r s : TenantRole)
    → all (within (tenant_role_permissions r) (tenant_role_permissions s)) all_permissions
      ≡ ranks_within r s
unfolding tenant_role_permissions set_contains
ranks_within_table TenantRole.owner TenantRole.owner = refl
ranks_within_table TenantRole.owner _ = refl
ranks_within_table TenantRole.admin TenantRole.owner = refl
ranks_within_table TenantRole.admin _ = refl
ranks_within_table TenantRole.manager TenantRole.owner = refl
ranks_within_table TenantRole.manager _ = refl
ranks_within_table TenantRole.agent TenantRole.owner = refl
ranks_within_table TenantRole.agent _ = refl
ranks_within_table TenantRole.viewer TenantRole.owner = refl
ranks_within_table TenantRole.viewer _ = refl

all_of_pointwise {ℓ} :
    {A : Type ℓ} (f : A → Bool) (xs : List A) → ((x : A) → f x ≡ true) → all f xs ≡ true
all_of_pointwise f [] h = refl
all_of_pointwise f (x ∷ xs) h = rw (h x) (all_of_pointwise f xs h)

-- A tenant role may do all that another may exactly when the other's rank, by which members are
-- managed, is not above its own, with one exception: an agent, whose rank is above a viewer's, may
-- not do all that a viewer may.
pub ranks_within_iff :
    (r s : TenantRole)
    → ((p : Permission) → grants r p ≡ true → grants s p ≡ true) ↔ (ranks_within r s ≡ true)
ranks_within_iff r s = (
  λ h. rw (← ranks_within_table r s) (
      all_of_pointwise (within (tenant_role_permissions r) (tenant_role_permissions s))
        all_permissions (λ p. ground (arith, h p))),
  λ h p. ground (
    arith,
    by_table (within (tenant_role_permissions r) (tenant_role_permissions s))
        (rw (ranks_within_table r s) h) p,
  ),
)

abbrev is_platform : Permission → Bool
is_platform p = set_contains (platform_role_permissions PlatformRole.super_admin) p

tenant_scope_table :
    (r : TenantRole) → all (λ p. implies (grants r p) (not (is_platform p))) all_permissions ≡ true
unfolding tenant_role_permissions platform_role_permissions set_contains
tenant_scope_table TenantRole.owner = refl
tenant_scope_table _ = refl

staff_scope_table :
    (s : PlatformRole) (production : Bool)
    → all
        (λ p.
          implies (set_contains (staff_tenant_permissions s production) p) (not (is_platform p)))
        all_permissions
      ≡ true
unfolding staff_tenant_permissions platform_role_permissions set_contains
staff_scope_table PlatformRole.super_admin true = refl
staff_scope_table PlatformRole.super_admin _ = refl
staff_scope_table PlatformRole.developer true = refl
staff_scope_table PlatformRole.developer _ = refl
staff_scope_table PlatformRole.sales true = refl
staff_scope_table PlatformRole.sales _ = refl
staff_scope_table PlatformRole.support true = refl
staff_scope_table PlatformRole.support _ = refl
staff_scope_table PlatformRole.finance true = refl
staff_scope_table PlatformRole.finance _ = refl

platform_scope_table :
    (s : PlatformRole)
    → all
        (λ p. implies (set_contains (platform_role_permissions s) p) (is_platform p))
        all_permissions
      ≡ true
unfolding platform_role_permissions set_contains
platform_scope_table PlatformRole.super_admin = refl
platform_scope_table _ = refl

-- The two scopes are disjoint: a permission that some platform role grants at the platform's
-- routes is granted by no tenant role, and to no staff inside a tenant, in any environment.
pub scopes_disjoint :
    (s s' : PlatformRole) (r : TenantRole) (production : Bool) (p : Permission)
    → set_contains (platform_role_permissions s) p ≡ true
    → (grants r p ≡ false) × (set_contains (staff_tenant_permissions s' production) p ≡ false)
scopes_disjoint s s' r production p h =
    let at_platform =
      by_table (λ q. implies (set_contains (platform_role_permissions s) q) (is_platform q))
        (platform_scope_table s) p in
    let at_tenant =
      by_table (λ q. implies (grants r q) (not (is_platform q))) (tenant_scope_table r) p in
    let of_staff =
      by_table
        (λ q.
          implies (set_contains (staff_tenant_permissions s' production) q) (not (is_platform q)))
        (staff_scope_table s' production) p in
    (ground (arith, at_platform, at_tenant), ground (arith, at_platform, of_staff))

abbrev pub support_managed : List Permission
support_managed = conversations_manage ∷ customers_manage ∷ []

-- The permissions that change something in a tenant.
abbrev pub managing : List Permission
managing =
    conversations_manage ∷ customers_manage ∷ ai_agent_manage ∷ knowledge_base_manage
    ∷ integrations_manage ∷ members_manage ∷ settings_manage ∷ billing_manage ∷ tenant_delete
    ∷ owner_assign ∷ widgets_manage ∷ []

abbrev may_change : PlatformRole → Permission → Bool
may_change PlatformRole.super_admin p = true
may_change PlatformRole.support p = set_contains support_managed p
may_change _ p = false

abbrev changes_allowed : PlatformRole → Permission → Bool
changes_allowed s p =
    implies (set_contains (staff_tenant_permissions s true) p)
      (implies (set_contains managing p) (may_change s p))

production_table : (s : PlatformRole) → all (changes_allowed s) all_permissions ≡ true
unfolding staff_tenant_permissions set_contains
production_table PlatformRole.super_admin = refl
production_table _ = refl

may_change_cases :
    (s : PlatformRole) (p : Permission)
    → may_change s p ≡ true
    → (s ≡ PlatformRole.super_admin)
      ⊎ ((s ≡ PlatformRole.support) × (set_contains support_managed p ≡ true))
may_change_cases PlatformRole.super_admin p h = inl refl
may_change_cases PlatformRole.support p h = inr (refl, h)
may_change_cases _ p h = ground arith

-- Of the permissions that change something in a tenant, production grants platform staff none,
-- but that super admins may have any, and support may manage conversations and customers.
pub staff_production_read_only :
    (s : PlatformRole) (p : Permission)
    → set_contains (staff_tenant_permissions s true) p ≡ true
    → set_contains managing p ≡ true
    → (s ≡ PlatformRole.super_admin)
      ⊎ ((s ≡ PlatformRole.support) × (set_contains support_managed p ≡ true))
staff_production_read_only s p h m =
    may_change_cases s p (ground (arith, by_table (changes_allowed s) (production_table s) p))

role_of_grant :
    (role : Option PlatformRole) (required : Permission)
    → set_contains (permissions_of role) required ≡ true
    → (r : PlatformRole) × (role ≡ some r)
      × (set_contains (platform_role_permissions r) required ≡ true)
unfolding set_contains
role_of_grant none required h = ground arith
role_of_grant (some r) required h = (r, refl, h)

-- Behind the platform middleware a request passes the guard exactly when its principal has a
-- platform role that grants the required permission.
pub platform_guard_iff :
    (required : Permission) (request : Extensions)
    → (permission_guard required (platform_permission_middleware request) ≡ next) ↔ (
        (role : PlatformRole) × (role_of request.principal ≡ some role)
        × (set_contains (platform_role_permissions role) required ≡ true))
unfolding permission_guard platform_permission_middleware
platform_guard_iff required request = (
  λ e. role_of_grant (role_of request.principal) required (ground arith),
  λ (role, found, h). rw (found, permissions_of) (rw h),
)
