-- ===== src/Tools/Validation/Integers.antt =====
-- Arguments whose schema says that they are integers.
use mathlib.Core.List.{Memᴰ}
use mathlib.Core.List.Memᴰ
use customer_service_chat_sy.Base.{
  Bool, ◌≡◌, ◌≢◌, List, [], ◌∷◌, some, arith, Text, codes, All, ok, inl, inr,
}
use customer_service_chat_sy.Tools.Json.{
  Json, null, bool, number, string, array, object, Entries, entries, field, get, as_object,
}
use customer_service_chat_sy.Tools.Validation.{ResolvedTool, actual_type, or_empty, validate}
use customer_service_chat_sy.Tools.Validation.Accepted.{ArgumentFits, validate_iff}

actual_type_no_integer : (value : Json) → codes "integer" ≢ actual_type value
actual_type_no_integer null h = ground arith
actual_type_no_integer (bool b) h = ground arith
actual_type_no_integer (number n) h = ground arith
actual_type_no_integer (string s) h = ground arith
actual_type_no_integer (array vs) h = ground arith
actual_type_no_integer (object es) h = ground arith

All-element : {A : Type 0} (P : A → Type 0) (a : A) (xs : List A) → All P xs → Memᴰ a xs → P a
All-element P a [] all m = absurd (Memᴰ.not-nil m)
All-element P a (x ∷ xs) (first, rest) m = elim (Memᴰ.cases_cons m) [
  | inl here ↦ rw here first
  | inr later ↦ All-element P a xs rest later
]

-- A call that gives an argument whose property has the type "integer" is never accepted, whatever
-- value it gives.
pub validate-integer :
    (value_eq : Json → Json → Bool) (resolved : List ResolvedTool) (name : Text) (arguments : Json)
    (tool : ResolvedTool) (es ps : Entries) (key : Text) (prop value : Json)
    → tool.spec.input_schema ≡ object es
    → field (codes "properties") (entries es) ≡ some (object ps)
    → field key (entries ps) ≡ some prop
    → get (codes "type") prop ≡ some (string (codes "integer"))
    → Memᴰ (key, value) (or_empty (as_object arguments))
    → validate value_eq resolved name arguments ≢ ok tool
validate-integer value_eq resolved name arguments tool es ps key prop value schema properties of_key
      type given h =
    let (found, accepts) = (validate_iff value_eq resolved name arguments tool).0 h in
    let fits = accepts.properties es ps schema properties in
    let fit =
      All-element (ArgumentFits value_eq (entries ps)) (key, value) (or_empty (as_object arguments))
        fits given prop of_key in
    actual_type_no_integer value (fit.typed (codes "integer") type)
