-- ===== src/Authz/Matrix.antt =====
-- Which role grants what: backend/crates/modules/authz/src/matrix.rs.
use customer_service_chat_sy.Base.{Bool, not, List, [], ◌∷◌, if◌then◌else◌}
use customer_service_chat_sy.Authz.Role.{TenantRole, PlatformRole}
use customer_service_chat_sy.Authz.Permission.{
  Permission, tenant, overview_view, conversations_view, conversations_manage, customers_view,
  customers_manage, ai_agent_view, ai_agent_manage, knowledge_base_view, knowledge_base_manage,
  integrations_view, integrations_manage, analytics_view, members_view, members_manage,
  settings_view, settings_manage, billing_view, platform_tenants_list, platform_tenants_switch,
  platform_tenants_manage, platform_admin, platform_billing_view, platform_billing_manage,
  platform_analytics_view, platform_diagnostics_view, audit_view, platform_audit_view, widgets_view,
  widgets_manage, tools_view,
}

abbrev tenant_admin : List Permission
tenant_admin =
    overview_view ∷ conversations_view ∷ conversations_manage ∷ customers_view ∷ customers_manage
    ∷ ai_agent_view ∷ ai_agent_manage ∷ knowledge_base_view ∷ knowledge_base_manage
    ∷ integrations_view ∷ integrations_manage ∷ analytics_view ∷ audit_view ∷ billing_view
    ∷ members_view ∷ members_manage ∷ settings_view ∷ settings_manage ∷ widgets_view
    ∷ widgets_manage ∷ tools_view ∷ []

abbrev tenant_manager : List Permission
tenant_manager =
    overview_view ∷ conversations_view ∷ conversations_manage ∷ customers_view ∷ customers_manage
    ∷ knowledge_base_view ∷ knowledge_base_manage ∷ integrations_view ∷ integrations_manage
    ∷ analytics_view ∷ members_view ∷ members_manage ∷ widgets_view ∷ tools_view ∷ []

abbrev tenant_agent : List Permission
tenant_agent =
    overview_view ∷ conversations_view ∷ conversations_manage ∷ customers_view ∷ customers_manage
    ∷ knowledge_base_view ∷ widgets_view ∷ []

abbrev tenant_viewer : List Permission
tenant_viewer =
    overview_view ∷ conversations_view ∷ customers_view ∷ knowledge_base_view ∷ integrations_view
    ∷ widgets_view ∷ []

abbrev platform_all : List Permission
platform_all =
    platform_tenants_list ∷ platform_tenants_switch ∷ platform_tenants_manage ∷ platform_admin
    ∷ platform_billing_view ∷ platform_billing_manage ∷ platform_analytics_view
    ∷ platform_diagnostics_view ∷ platform_audit_view ∷ []

abbrev platform_developer : List Permission
platform_developer =
    platform_tenants_list ∷ platform_tenants_switch ∷ platform_analytics_view
    ∷ platform_diagnostics_view ∷ platform_audit_view ∷ []

abbrev platform_tenant_access : List Permission
platform_tenant_access =
    platform_tenants_list ∷ platform_tenants_switch ∷ platform_analytics_view ∷ platform_audit_view
    ∷ []

abbrev platform_support : List Permission
platform_support =
    platform_tenants_list ∷ platform_tenants_switch ∷ platform_tenants_manage
    ∷ platform_analytics_view ∷ platform_audit_view ∷ []

abbrev platform_finance : List Permission
platform_finance =
    platform_tenants_list ∷ platform_tenants_switch ∷ platform_analytics_view
    ∷ platform_billing_view ∷ platform_billing_manage ∷ platform_audit_view ∷ []

abbrev staff_production_developer : List Permission
staff_production_developer =
    overview_view ∷ conversations_view ∷ customers_view ∷ knowledge_base_view ∷ integrations_view
    ∷ analytics_view ∷ members_view ∷ settings_view ∷ widgets_view ∷ []

abbrev staff_production_support : List Permission
staff_production_support =
    overview_view ∷ conversations_view ∷ conversations_manage ∷ customers_view ∷ customers_manage
    ∷ knowledge_base_view ∷ widgets_view ∷ []

abbrev staff_production_sales : List Permission
staff_production_sales = overview_view ∷ analytics_view ∷ members_view ∷ settings_view ∷ []

abbrev staff_production_finance : List Permission
staff_production_finance =
    overview_view ∷ analytics_view ∷ members_view ∷ settings_view ∷ billing_view ∷ []

unfoldable pub tenant_role_permissions : TenantRole → List Permission
tenant_role_permissions TenantRole.owner = tenant
tenant_role_permissions TenantRole.admin = tenant_admin
tenant_role_permissions TenantRole.manager = tenant_manager
tenant_role_permissions TenantRole.agent = tenant_agent
tenant_role_permissions TenantRole.viewer = tenant_viewer

unfoldable pub platform_role_permissions : PlatformRole → List Permission
platform_role_permissions PlatformRole.super_admin = platform_all
platform_role_permissions PlatformRole.developer = platform_developer
platform_role_permissions PlatformRole.support = platform_support
platform_role_permissions PlatformRole.sales = platform_tenant_access
platform_role_permissions PlatformRole.finance = platform_finance

-- The tenant permissions of platform staff, by the environment.
staff_production_permissions : PlatformRole → List Permission
staff_production_permissions PlatformRole.super_admin = tenant
staff_production_permissions PlatformRole.developer = staff_production_developer
staff_production_permissions PlatformRole.support = staff_production_support
staff_production_permissions PlatformRole.sales = staff_production_sales
staff_production_permissions PlatformRole.finance = staff_production_finance

unfoldable pub staff_tenant_permissions : PlatformRole → Bool → List Permission
unfolding staff_production_permissions
staff_tenant_permissions role is_production =
    if not is_production then tenant else staff_production_permissions role
