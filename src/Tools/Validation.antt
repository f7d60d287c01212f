-- ===== src/Tools/Validation.antt =====
-- `validate` of backend/crates/modules/tools/src/executor.rs: may the model call this tool with
-- these arguments? Equality of JSON values is serde_json's, an argument.
pub mod Accepted
pub mod Integers
use customer_service_chat_sy.Base.{
  ℕ, Bool, true, false, List, [], ◌∷◌, Option, none, some, Text, codes, text_eq, ◌==◌,
  if◌then◌else◌, Result, ok, err, find, any,
}
use customer_service_chat_sy.Tools.Model.{ToolSource}
use customer_service_chat_sy.Tools.Json.{
  Json, null, bool, number, string, array, object, field, get, as_object, as_array, as_str,
  and_then,
}

-- `ai_providers::ToolSpec`.
pub record ToolSpec : Type 0 where
  pub name : Text
  pub description : Text
  pub input_schema : Json

-- `policy::ResolvedTool`.
pub record ResolvedTool : Type 0 where
  pub spec : ToolSpec
  pub source : ToolSource
  pub approval_required : Bool
  pub tenant_tool_id : Option ℕ

-- The texts of the mismatches are left out.
pub data ValidationFailure : Type 0 where
  unknown_or_disabled : ValidationFailure
  schema_mismatch : ValidationFailure

abbrev pub actual_type : Json → Text
actual_type null = codes "null"
actual_type (bool b) = codes "boolean"
actual_type (number n) = codes "number"
actual_type (string s) = codes "string"
actual_type (array vs) = codes "array"
actual_type (object es) = codes "object"

abbrev pub is_some {ℓ} : {A : Type ℓ} → Option A → Bool
is_some none = false
is_some (some a) = true

-- The loop over `required`; each name must be a text and a key of the arguments.
pub check_required : Json → List Json → Bool
check_required arguments [] = true
check_required arguments (req ∷ rest) = elim (as_str req) [
  | none ↦ false
  | some name ↦ if is_some (get name arguments) then check_required arguments rest else false
]

abbrev pub type_fits : Option Text → Json → Bool
type_fits none value = true
type_fits (some expected) value = expected == actual_type value

abbrev pub or_empty {ℓ} : {A : Type ℓ} → Option (List A) → List A
or_empty none = []
or_empty (some xs) = xs

module _ (value_eq : Json → Json → Bool) where
  abbrev pub enum_fits : Option (List Json) → Json → Bool
  enum_fits none value = true
  enum_fits (some allowed) value = any (λ ev. value_eq ev value) allowed

  -- One argument against the property of its name; one that no property names is let through.
  abbrev pub property_fits : Option Json → Json → Bool
  property_fits none value = true
  property_fits (some prop) value =
      if type_fits (and_then (get (codes "type") prop) as_str) value
      then enum_fits (and_then (get (codes "enum") prop) as_array) value
      else false

  -- The loop over the arguments.
  pub check_properties : List (Text × Json) → List (Text × Json) → Bool
  check_properties properties [] = true
  check_properties properties ((key, value) ∷ rest) =
      if property_fits (field key properties) value then check_properties properties rest else false

  abbrev pub required_fits : Option (List Json) → Json → Bool
  required_fits none arguments = true
  required_fits (some required) arguments = check_required arguments required

  abbrev pub properties_fit : Option (List (Text × Json)) → Json → Bool
  properties_fit none arguments = true
  properties_fit (some properties) arguments =
      check_properties properties (or_empty (as_object arguments))

  abbrev pub schema_fits : Option (List (Text × Json)) → Json → Bool
  schema_fits none arguments = true
  schema_fits (some schema) arguments =
      if required_fits (and_then (field (codes "required") schema) as_array) arguments
      then properties_fit (and_then (field (codes "properties") schema) as_object) arguments
      else false

  unfoldable pub validate : List ResolvedTool → Text → Json → Result ResolvedTool ValidationFailure
  unfolding check_required check_properties
  validate resolved name arguments =
      elim (find (λ (t : ResolvedTool). t.spec.name == name) resolved) [
        | none ↦ err unknown_or_disabled
        | some tool ↦
            if schema_fits (as_object tool.spec.input_schema) arguments
            then ok tool
            else err schema_mismatch
      ]
