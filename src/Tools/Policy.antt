-- ===== src/Tools/Policy.antt =====
-- Which tools the assistant may call for a tenant, and with whose approval:
-- backend/crates/modules/tools/src/policy.rs, with the catalog of registry.rs. The rows of the
-- two tables that the code reads for the tenant are arguments; `sort_by` is a stable sort.
pub mod Available
pub mod Sorted
use customer_service_chat_sy.Base.{
  Bool, true, false, ◌&&◌, ◌||◌, ℕ, List, [], ◌∷◌, ◌++◌, map, Option, none, some, Text, codes,
  text_eq, ◌==◌, eqb, ltb, if◌then◌else◌, find,
}
use customer_service_chat_sy.Tools.Model.{
  builtin, tenant, source_text, Classification, auto, approval,
}
use customer_service_chat_sy.Tools.Json.{Json, string, array, object, nil, cons, end, entry}
use customer_service_chat_sy.Tools.Validation.{ToolSpec, ResolvedTool}

pub record BuiltinTool : Type 0 where
  pub spec : ToolSpec
  pub classification : Classification

abbrev pub typed : Text → Json
typed type = object (entry (codes "type") (string type) end)

abbrev pub lookup_customer : BuiltinTool
lookup_customer = record {
  spec = record {
    name = codes "lookup_customer";
    description = codes "Look up the current customer's profile by conversation context";
    input_schema = object (
        entry (codes "type") (string (codes "object"))
          (entry (codes "properties") (object end) end));
  };
  classification = auto;
}

abbrev pub update_customer_contact : BuiltinTool
update_customer_contact = record {
  spec = record {
    name = codes "update_customer_contact";
    description = codes "Update a customer's email or phone contact field";
    input_schema = object (
        entry (codes "type") (string (codes "object")) (
          entry (codes "properties")
            (object (
              entry (codes "field")
                (object (
                  entry (codes "type") (string (codes "string")) (
                    entry (codes "enum")
                      (array (cons (string (codes "email")) (cons (string (codes "phone")) nil)))
                      end)))
                (entry (codes "value") (typed (codes "string")) end)))
            (entry (codes "required")
              (array (cons (string (codes "field")) (cons (string (codes "value")) nil))) end)));
  };
  classification = approval;
}

abbrev pub catalog : List BuiltinTool
catalog = lookup_customer ∷ update_customer_contact ∷ []

-- A row of `tenant_tool_policies`.
pub record ToolPolicy : Type 0 where
  pub tool_name : Text
  pub enabled : Bool
  pub require_approval : Bool

-- A row of `tenant_tools`, of which the endpoint and the times are left out.
pub record TenantTool : Type 0 where
  pub id : ℕ
  pub spec : ToolSpec
  pub classification : Text
  pub enabled : Bool

abbrev pub is_approval : Classification → Bool
is_approval auto = false
is_approval approval = true

abbrev pub resolve_builtin : Classification → (policy_enabled require_approval : Bool) → Option Bool
resolve_builtin c false require_approval = none
resolve_builtin c true require_approval = some (is_approval c || require_approval)

pub record BuiltinSetting : Type 0 where
  pub spec : ToolSpec
  pub classification : Classification
  pub enabled : Bool
  pub require_approval : Bool
  pub effective_approval : Bool

abbrev pub policy_of : List ToolPolicy → Text → Option ToolPolicy
policy_of policies name = find (λ (p : ToolPolicy). p.tool_name == name) policies

-- The policy's two columns, or both `false`.
abbrev pub enabled_or_false : Option ToolPolicy → Bool × Bool
enabled_or_false none = (false, false)
enabled_or_false (some p) = (p.enabled, p.require_approval)

abbrev pub setting_of : Option ToolPolicy → BuiltinTool → BuiltinSetting
setting_of policy tool =
    let (enabled, require_approval) = enabled_or_false policy in
    record {
      spec = tool.spec;
      classification = tool.classification;
      enabled = enabled;
      require_approval = require_approval;
      effective_approval = is_approval tool.classification || require_approval;
    }

abbrev pub setting : List ToolPolicy → BuiltinTool → BuiltinSetting
setting policies tool = setting_of (policy_of policies tool.spec.name) tool

abbrev pub builtin_settings : List ToolPolicy → List BuiltinSetting
builtin_settings policies = map (setting policies) catalog

abbrev pub as_builtin : ToolSpec → Bool → ResolvedTool
as_builtin spec approval_required = record {
  spec = spec;
  source = builtin;
  approval_required = approval_required;
  tenant_tool_id = none;
}

-- What one tool of the catalog adds: nothing without a policy, or when it is not enabled.
abbrev pub push_resolved : ToolSpec → Option Bool → List ResolvedTool → List ResolvedTool
push_resolved spec none rest = rest
push_resolved spec (some approval_required) rest = as_builtin spec approval_required ∷ rest

abbrev pub approval_of : BuiltinTool → Option ToolPolicy → Option Bool
approval_of tool none = none
approval_of tool (some p) = resolve_builtin tool.classification p.enabled p.require_approval

pub resolve_builtins : List ToolPolicy → List BuiltinTool → List ResolvedTool
resolve_builtins policies [] = []
resolve_builtins policies (tool ∷ tools) =
    push_resolved tool.spec (approval_of tool (policy_of policies tool.spec.name))
      (resolve_builtins policies tools)

abbrev pub as_tenant : TenantTool → ResolvedTool
as_tenant row = record {
  spec = row.spec;
  source = tenant;
  approval_required = row.classification == codes "approval";
  tenant_tool_id = some row.id;
}

pub resolve_tenant_tools : List TenantTool → List ResolvedTool
resolve_tenant_tools [] = []
resolve_tenant_tools (t ∷ tools) =
    if t.enabled then as_tenant t ∷ resolve_tenant_tools tools else resolve_tenant_tools tools

-- Is the first text not after the second? The order of `str` is that of the code points.
abbrev pub text_leb : Text → Text → Bool
text_leb [] t = true
text_leb (a ∷ s) [] = false
text_leb (a ∷ s) (b ∷ t) = ltb a b || eqb a b && text_leb s t

-- By source, then by name.
abbrev pub tool_leb : ResolvedTool → ResolvedTool → Bool
tool_leb a b =
    if source_text a.source == source_text b.source
    then text_leb a.spec.name b.spec.name
    else text_leb (source_text a.source) (source_text b.source)

pub insert_sorted : ResolvedTool → List ResolvedTool → List ResolvedTool
insert_sorted t [] = t ∷ []
insert_sorted t (u ∷ us) = if tool_leb t u then t ∷ u ∷ us else u ∷ insert_sorted t us

pub sort : List ResolvedTool → List ResolvedTool
sort [] = []
sort (t ∷ ts) = insert_sorted t (sort ts)

unfoldable pub resolve_available : List ToolPolicy → List TenantTool → List ResolvedTool
resolve_available policies tenant_tools =
    sort (resolve_builtins policies catalog ++ resolve_tenant_tools tenant_tools)
