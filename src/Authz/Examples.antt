-- ===== src/Authz/Examples.antt =====
-- Runs of the guard, and the theorems at concrete inputs.
use customer_service_chat_sy.Base.{true, false, ◌≡◌, refl, ◌↔◌, none, some, codes, text_eq}
use customer_service_chat_sy.Authz.Role.{PlatformRole}
use customer_service_chat_sy.Authz.Permission.{
  code, permission_from_text, members_manage, platform_billing_view,
}
use customer_service_chat_sy.Authz.Permission.Codes.{permission_from_text_iff}
use customer_service_chat_sy.Authz.Matrix.{platform_role_permissions}
use customer_service_chat_sy.Authz.Guard.{
  set_contains, Extensions, role_of, platform_permission_middleware, permission_guard, next,
  access_denied,
}
use customer_service_chat_sy.Authz.Grants.{platform_guard_iff}

abbrev finance_request : Extensions
finance_request = record {
  principal =
      some (record { platform_role = some PlatformRole.finance; invalid_platform_role = false });
  permissions = none;
}

finance_sees_bills :
    permission_guard platform_billing_view (platform_permission_middleware finance_request) ≡ next
unfolding permission_guard platform_permission_middleware platform_role_permissions set_contains
finance_sees_bills = refl

no_middleware_no_access : permission_guard platform_billing_view finance_request ≡ access_denied
unfolding permission_guard
no_middleware_no_access = refl

permission_from_text_iff_example :
    (permission_from_text (codes "members.manage") ≡ some members_manage)
    ↔ (code members_manage ≡ codes "members.manage")
permission_from_text_iff_example = permission_from_text_iff (codes "members.manage") members_manage

platform_guard_iff_example :
    (permission_guard platform_billing_view (platform_permission_middleware finance_request) ≡ next)
    ↔ ((role : PlatformRole) × (role_of finance_request.principal ≡ some role)
        × (set_contains (platform_role_permissions role) platform_billing_view ≡ true))
platform_guard_iff_example = platform_guard_iff platform_billing_view finance_request
