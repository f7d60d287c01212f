-- ===== src/Authz/Permission.antt =====
-- Permissions and their codes: backend/crates/modules/authz/src/permission.rs.
pub mod Codes
use customer_service_chat_sy.Base.{
  ℕ, Bool, List, [], ◌∷◌, ◌≡◌, refl, some, ap, ◌∙◌, sym, ◌↔◌, Eq, eqb, eqb_iff, ◌==◌, true,
  get_elem?, find, all, all-get_elem?, Text, codes, text_eq, Option,
}

-- An operation that a role may grant.
pub data Permission : Type 0 where
  overview_view : Permission
  conversations_view : Permission
  conversations_manage : Permission
  customers_view : Permission
  customers_manage : Permission
  ai_agent_view : Permission
  ai_agent_manage : Permission
  knowledge_base_view : Permission
  knowledge_base_manage : Permission
  integrations_view : Permission
  integrations_manage : Permission
  analytics_view : Permission
  members_view : Permission
  members_manage : Permission
  settings_view : Permission
  settings_manage : Permission
  billing_view : Permission
  billing_manage : Permission
  tenant_delete : Permission
  owner_assign : Permission
  platform_tenants_list : Permission
  platform_tenants_switch : Permission
  platform_tenants_manage : Permission
  platform_admin : Permission
  platform_billing_view : Permission
  platform_billing_manage : Permission
  platform_analytics_view : Permission
  platform_diagnostics_view : Permission
  audit_view : Permission
  platform_audit_view : Permission
  widgets_view : Permission
  widgets_manage : Permission
  tools_view : Permission

-- `Permission::TENANT`.
abbrev pub tenant : List Permission
tenant =
    overview_view ∷ conversations_view ∷ conversations_manage ∷ customers_view ∷ customers_manage
    ∷ ai_agent_view ∷ ai_agent_manage ∷ knowledge_base_view ∷ knowledge_base_manage
    ∷ integrations_view ∷ integrations_manage ∷ analytics_view ∷ members_view ∷ members_manage
    ∷ settings_view ∷ settings_manage ∷ billing_view ∷ billing_manage ∷ tenant_delete ∷ owner_assign
    ∷ audit_view ∷ widgets_view ∷ widgets_manage ∷ tools_view ∷ []

-- `Permission::ALL`.
abbrev pub all_permissions : List Permission
all_permissions =
    overview_view ∷ conversations_view ∷ conversations_manage ∷ customers_view ∷ customers_manage
    ∷ ai_agent_view ∷ ai_agent_manage ∷ knowledge_base_view ∷ knowledge_base_manage
    ∷ integrations_view ∷ integrations_manage ∷ analytics_view ∷ members_view ∷ members_manage
    ∷ settings_view ∷ settings_manage ∷ billing_view ∷ billing_manage ∷ tenant_delete ∷ owner_assign
    ∷ platform_tenants_list ∷ platform_tenants_switch ∷ platform_tenants_manage ∷ platform_admin
    ∷ platform_billing_view ∷ platform_billing_manage ∷ platform_analytics_view
    ∷ platform_diagnostics_view ∷ audit_view ∷ platform_audit_view ∷ widgets_view ∷ widgets_manage
    ∷ tools_view ∷ []

-- The place of a permission in `ALL`. (The derived `PartialEq` compares discriminants.)
abbrev pub ordinal : Permission → ℕ
ordinal overview_view = 0
ordinal conversations_view = 1
ordinal conversations_manage = 2
ordinal customers_view = 3
ordinal customers_manage = 4
ordinal ai_agent_view = 5
ordinal ai_agent_manage = 6
ordinal knowledge_base_view = 7
ordinal knowledge_base_manage = 8
ordinal integrations_view = 9
ordinal integrations_manage = 10
ordinal analytics_view = 11
ordinal members_view = 12
ordinal members_manage = 13
ordinal settings_view = 14
ordinal settings_manage = 15
ordinal billing_view = 16
ordinal billing_manage = 17
ordinal tenant_delete = 18
ordinal owner_assign = 19
ordinal platform_tenants_list = 20
ordinal platform_tenants_switch = 21
ordinal platform_tenants_manage = 22
ordinal platform_admin = 23
ordinal platform_billing_view = 24
ordinal platform_billing_manage = 25
ordinal platform_analytics_view = 26
ordinal platform_diagnostics_view = 27
ordinal audit_view = 28
ordinal platform_audit_view = 29
ordinal widgets_view = 30
ordinal widgets_manage = 31
ordinal tools_view = 32

pub get_elem?-ordinal : (p : Permission) → get_elem? all_permissions (ordinal p) ≡ some p
get_elem?-ordinal overview_view = refl
get_elem?-ordinal _ = refl

abbrev pub permission_beq : Permission → Permission → Bool
permission_beq p q = eqb (ordinal p) (ordinal q)

permission_beq→≡ : (p q : Permission) → permission_beq p q ≡ true → p ≡ q
permission_beq→≡ p q h =
    let same = ap (get_elem? all_permissions) ((eqb_iff (ordinal p) (ordinal q)).0 h) in
    let found : some p ≡ some q = sym (get_elem?-ordinal p) ∙ same ∙ get_elem?-ordinal q in cc

pub permission_beq_iff : (p q : Permission) → (permission_beq p q ≡ true) ↔ (p ≡ q)
permission_beq_iff p q = (permission_beq→≡ p q, λ e. (eqb_iff _ _).1 (ap ordinal e))

instance abbrev pub permission_eq : Eq Permission
permission_eq = record { equal = permission_beq; equal_iff = permission_beq_iff }

-- `Display`.
abbrev pub code : Permission → Text
code overview_view = codes "overview.view"
code conversations_view = codes "conversations.view"
code conversations_manage = codes "conversations.manage"
code customers_view = codes "customers.view"
code customers_manage = codes "customers.manage"
code ai_agent_view = codes "ai_agent.view"
code ai_agent_manage = codes "ai_agent.manage"
code knowledge_base_view = codes "knowledge_base.view"
code knowledge_base_manage = codes "knowledge_base.manage"
code integrations_view = codes "integrations.view"
code integrations_manage = codes "integrations.manage"
code analytics_view = codes "analytics.view"
code members_view = codes "members.view"
code members_manage = codes "members.manage"
code settings_view = codes "settings.view"
code settings_manage = codes "settings.manage"
code billing_view = codes "billing.view"
code billing_manage = codes "billing.manage"
code tenant_delete = codes "tenant.delete"
code owner_assign = codes "owner.assign"
code platform_tenants_list = codes "platform.tenants.list"
code platform_tenants_switch = codes "platform.tenants.switch"
code platform_tenants_manage = codes "platform.tenants.manage"
code platform_admin = codes "platform.admin"
code platform_billing_view = codes "platform.billing.view"
code platform_billing_manage = codes "platform.billing.manage"
code platform_analytics_view = codes "platform.analytics.view"
code platform_diagnostics_view = codes "platform.diagnostics.view"
code audit_view = codes "audit.view"
code platform_audit_view = codes "platform.audit.view"
code widgets_view = codes "widgets.view"
code widgets_manage = codes "widgets.manage"
code tools_view = codes "tools.view"

-- `FromStr`: the first permission of `ALL` with that code; `none` is its error.
pub permission_from_text : Text → Option Permission
permission_from_text t = find (λ p. code p == t) all_permissions

-- A Boolean property of `ALL` is one of every permission.
pub by_table :
    (f : Permission → Bool) → all f all_permissions ≡ true → (p : Permission) → f p ≡ true
by_table f h p = all-get_elem? f all_permissions (ordinal p) h (get_elem?-ordinal p)
