-- ===== src/Tools/Validation/Accepted.antt =====
-- What the arguments of an accepted call satisfy, as a specification of the check.
use customer_service_chat_sy.Base.{
  Bool, true, false, ◌≡◌, refl, ◌↔◌, inl, inr, ap, ◌∙◌, List, [], ◌∷◌, Option, none, some, arith,
  Text, codes, text_eq, text_beq_iff, ◌==◌, ==→≡, Bool-cases, Option-cases, if◌then◌else◌, ok, find,
  any, All,
}
use customer_service_chat_sy.Tools.Json.{
  Json, null, bool, number, string, array, object, Items, Entries, items, entries, field, get,
  as_object, as_array, as_str, and_then,
}
use customer_service_chat_sy.Tools.Validation.{
  ResolvedTool, actual_type, check_required, type_fits, or_empty, enum_fits, property_fits,
  check_properties, required_fits, properties_fit, schema_fits, validate,
}

if-eq-true : (a b : Bool) → (if a then b else false) ≡ true → (a ≡ true) × (b ≡ true)
if-eq-true true b h = (refl, h)
if-eq-true false b h = absurd (cc)

-- An entry of `required` is a text, and a key of the arguments.
abbrev pub IsGiven : Json → Json → Type 0
IsGiven arguments req =
    (name : Text) × (req ≡ string name) × ((value : Json) × (get name arguments ≡ some value))

required_sound :
    (arguments : Json) (reqs : List Json)
    → check_required arguments reqs ≡ true
    → All (IsGiven arguments) reqs
unfolding check_required
required_sound arguments [] h = tt
required_sound arguments (string name ∷ reqs) h = elim (Option-cases (get name arguments)) [
  | inl missing ↦ absurd (ground arith)
  | inr (value, given) ↦ (
    (name, refl, (value, given)),
    required_sound arguments reqs (rw (given, check_required) at h),
  )
]
required_sound arguments (null ∷ reqs) h = absurd (ground arith)
required_sound arguments (bool b ∷ reqs) h = absurd (ground arith)
required_sound arguments (number n ∷ reqs) h = absurd (ground arith)
required_sound arguments (array vs ∷ reqs) h = absurd (ground arith)
required_sound arguments (object es ∷ reqs) h = absurd (ground arith)

required_complete :
    (arguments : Json) (reqs : List Json)
    → All (IsGiven arguments) reqs
    → check_required arguments reqs ≡ true
unfolding check_required
required_complete arguments [] h = refl
required_complete arguments (req ∷ reqs) ((name, same, (value, given)), rest) =
    rw same (rw (given, check_required) (required_complete arguments reqs rest))

module _ (value_eq : Json → Json → Bool) where
  -- A value has the property's type, if it states one, and is one of its `enum`, if it has one.
  pub record ValueFits (prop value : Json) : Type 0 where
    pub typed : (t : Text) → get (codes "type") prop ≡ some (string t) → t ≡ actual_type value
    pub listed :
        (vs : Items)
        → get (codes "enum") prop ≡ some (array vs)
        → any (λ ev. value_eq ev value) (items vs) ≡ true

  abbrev pub ArgumentFits : List (Text × Json) → Text × Json → Type 0
  ArgumentFits properties (key, value) =
      (prop : Json) → field key properties ≡ some prop → ValueFits prop value

  -- What the schema asks of the arguments; a schema that is no object asks nothing.
  pub record Accepts (schema arguments : Json) : Type 0 where
    pub required :
        (es : Entries) (vs : Items)
        → schema ≡ object es
        → field (codes "required") (entries es) ≡ some (array vs)
        → All (IsGiven arguments) (items vs)
    pub properties :
        (es ps : Entries)
        → schema ≡ object es
        → field (codes "properties") (entries es) ≡ some (object ps)
        → All (ArgumentFits (entries ps)) (or_empty (as_object arguments))

  type_sound :
      (stated : Option Json) (value : Json)
      → type_fits (and_then stated as_str) value ≡ true
      → (t : Text) → stated ≡ some (string t)
      → t ≡ actual_type value
  type_sound stated value h t e = ==→≡ t (actual_type value) (rw e at h)

  type_complete :
      (stated : Option Json) (value : Json)
      → ((t : Text) → stated ≡ some (string t) → t ≡ actual_type value)
      → type_fits (and_then stated as_str) value ≡ true
  type_complete none value h = refl
  type_complete (some (string t)) value h = (text_beq_iff t (actual_type value)).1 (h t refl)
  type_complete (some null) value h = refl
  type_complete (some _) value h = refl

  enum_sound :
      (stated : Option Json) (value : Json)
      → enum_fits value_eq (and_then stated as_array) value ≡ true
      → (vs : Items) → stated ≡ some (array vs)
      → any (λ ev. value_eq ev value) (items vs) ≡ true
  enum_sound stated value h vs e = rw e at h

  enum_complete :
      (stated : Option Json) (value : Json)
      → ((vs : Items) → stated ≡ some (array vs) → any (λ ev. value_eq ev value) (items vs) ≡ true)
      → enum_fits value_eq (and_then stated as_array) value ≡ true
  enum_complete none value h = refl
  enum_complete (some (array vs)) value h = h vs refl
  enum_complete (some null) value h = refl
  enum_complete (some _) value h = refl

  property_sound :
      (stated : Option Json) (value : Json)
      → property_fits value_eq stated value ≡ true
      → (prop : Json) → stated ≡ some prop
      → ValueFits prop value
  property_sound none value h prop e = absurd (ground arith)
  property_sound (some prop') value h prop e =
      let same : prop' ≡ prop = cc in
      let (typed, listed) = if-eq-true _ _ h in
      rw (← same) (record {
        typed = type_sound (get (codes "type") prop') value typed;
        listed = enum_sound (get (codes "enum") prop') value listed;
      })

  property_complete :
      (stated : Option Json) (value : Json)
      → ((prop : Json) → stated ≡ some prop → ValueFits prop value)
      → property_fits value_eq stated value ≡ true
  property_complete none value h = refl
  property_complete (some prop) value h =
      rw (type_complete (get (codes "type") prop) value (h prop refl).typed)
        (enum_complete (get (codes "enum") prop) value (h prop refl).listed)

  properties_sound :
      (props args : List (Text × Json))
      → check_properties value_eq props args ≡ true
      → All (ArgumentFits props) args
  unfolding check_properties
  properties_sound props [] h = tt
  properties_sound props ((key, value) ∷ args) h =
      elim (Bool-cases (property_fits value_eq (field key props) value)) [
        | inl fits ↦ (
          property_sound (field key props) value fits,
          properties_sound props args (rw (fits, check_properties) at h),
        )
        | inr bad ↦ absurd (let stop : false ≡ true = rw (bad, check_properties) at h in cc)
      ]

  properties_complete :
      (props args : List (Text × Json))
      → All (ArgumentFits props) args
      → check_properties value_eq props args ≡ true
  unfolding check_properties
  properties_complete props [] h = refl
  properties_complete props ((key, value) ∷ args) (fits, rest) =
      rw (property_complete (field key props) value fits) (properties_complete props args rest)

  required_part_sound :
      (stated : Option Json) (arguments : Json)
      → required_fits value_eq (and_then stated as_array) arguments ≡ true
      → (vs : Items) → stated ≡ some (array vs)
      → All (IsGiven arguments) (items vs)
  required_part_sound stated arguments h vs e = required_sound arguments (items vs) (rw e at h)

  required_part_complete :
      (stated : Option Json) (arguments : Json)
      → ((vs : Items) → stated ≡ some (array vs) → All (IsGiven arguments) (items vs))
      → required_fits value_eq (and_then stated as_array) arguments ≡ true
  required_part_complete none arguments h = refl
  required_part_complete (some (array vs)) arguments h =
      required_complete arguments (items vs) (h vs refl)
  required_part_complete (some null) arguments h = refl
  required_part_complete (some _) arguments h = refl

  properties_part_sound :
      (stated : Option Json) (arguments : Json)
      → properties_fit value_eq (and_then stated as_object) arguments ≡ true
      → (ps : Entries) → stated ≡ some (object ps)
      → All (ArgumentFits (entries ps)) (or_empty (as_object arguments))
  properties_part_sound stated arguments h ps e =
      properties_sound (entries ps) (or_empty (as_object arguments)) (rw e at h)

  properties_part_complete :
      (stated : Option Json) (arguments : Json)
      → ((ps : Entries)
          → stated ≡ some (object ps)
          → All (ArgumentFits (entries ps)) (or_empty (as_object arguments)))
      → properties_fit value_eq (and_then stated as_object) arguments ≡ true
  properties_part_complete none arguments h = refl
  properties_part_complete (some (object ps)) arguments h =
      properties_complete (entries ps) (or_empty (as_object arguments)) (h ps refl)
  properties_part_complete (some null) arguments h = refl
  properties_part_complete (some _) arguments h = refl

  schema_sound :
      (schema arguments : Json)
      → schema_fits value_eq (as_object schema) arguments ≡ true
      → Accepts schema arguments
  schema_sound schema arguments h = record {
    required = λ es vs e.
        required_part_sound (field (codes "required") (entries es)) arguments
          (if-eq-true _ _ (rw e at h)).0 vs;
    properties = λ es ps e.
        properties_part_sound (field (codes "properties") (entries es)) arguments
          (if-eq-true _ _ (rw e at h)).1 ps;
  }

  schema_complete :
      (schema arguments : Json)
      → Accepts schema arguments
      → schema_fits value_eq (as_object schema) arguments ≡ true
  schema_complete (object es) arguments a =
      rw
        (required_part_complete (field (codes "required") (entries es)) arguments
          (λ vs. a.required es vs refl))
        (properties_part_complete (field (codes "properties") (entries es)) arguments
          (λ ps. a.properties es ps refl))
  schema_complete null arguments a = refl
  schema_complete _ arguments a = refl

  -- A call is accepted exactly when the tool is the first of that name that is available, and its
  -- schema accepts the arguments: the required names are given, and each argument that has a
  -- property has its type and is one of its values.
  pub validate_iff :
      (resolved : List ResolvedTool) (name : Text) (arguments : Json) (tool : ResolvedTool)
      → (validate value_eq resolved name arguments ≡ ok tool) ↔ (
          (find (λ (t : ResolvedTool). t.spec.name == name) resolved ≡ some tool)
          × Accepts tool.spec.input_schema arguments)
  unfolding validate
  validate_iff resolved name arguments tool =
      elim (Option-cases (find (λ (t : ResolvedTool). t.spec.name == name) resolved)) [
        | inl missing ↦ (λ h. absurd (ground arith), λ (found, a). absurd (ground arith))
        | inr (t, first) ↦ (
          λ h.
              let opened = rw (first, validate) at h in
              let fits : schema_fits value_eq (as_object t.spec.input_schema) arguments ≡ true =
                ground arith in
              let same : t ≡ tool = ground arith in
              (first ∙ ap some same, rw (← same) (schema_sound t.spec.input_schema arguments fits)),
          λ (found, a).
              rw (found, validate) (rw (schema_complete tool.spec.input_schema arguments a)),
        )
      ]
