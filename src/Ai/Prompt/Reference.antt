-- ===== src/Ai/Prompt/Reference.antt =====
-- Rendering as one pass over the characters, without offsets.
use customer_service_chat_sy.Base.{
  ℕ, Bool, true, false, not, ◌&&◌, ◌≡◌, ◌⊎◌, refl, inl, inr, List, [], ◌∷◌, ◌++◌, Option, none,
  some, Text, eqb, lookup, text_eq, ◌==◌, if◌then◌else◌, Bool-cases, arith,
}
use customer_service_chat_sy.Ai.Prompt.{
  is_valid_variable_name, opening, closing, neither, braces, value_or,
}

pub braces_cases :
    (ch next : ℕ)
    → ((braces ch next ≡ opening) × (ch ≡ 123) × (next ≡ 123))
      ⊎ ((braces ch next ≡ closing) × (ch ≡ 125) × (next ≡ 125))
      ⊎ (braces ch next ≡ neither)
braces_cases ch next = elim (Bool-cases (eqb ch 123 && eqb next 123)) [
  | inl both ↦ inl (rw both refl, ground arith, ground arith)
  | inr other ↦ elim (Bool-cases (eqb ch 125 && eqb next 125)) [
    | inl both ↦ inr (inl (rw (other, both) refl, ground arith, ground arith))
    | inr none_of ↦ inr (inr (rw (other, none_of) refl))
  ]
]

-- A placeholder as it stands in the text, from its opening braces to its closing ones.
abbrev pub opened : Text → Text
opened name = 123 ∷ 123 ∷ name

abbrev pub placeholder : Text → Text
placeholder name = opened name ++ 125 ∷ 125 ∷ []

abbrev pub value_of : Option Text → Text → Text
value_of (some value) kept = value
value_of none kept = kept

pub value_or-some :
    (valid : Bool) (found : Option Text) (kept : Text)
    → (if valid then value_or found (some kept) else some kept)
      ≡ some (if valid then value_of found kept else kept)
value_or-some true none kept = refl
value_or-some true (some value) kept = refl
value_or-some false found kept = refl

module _ (vars : List (Text × Text)) where
  -- A placeholder's value, or itself when it has none.
  abbrev pub substitute : (name : Text) → Text
  substitute name =
      if not (name == []) && is_valid_variable_name name
      then value_of (lookup name vars) (placeholder name)
      else placeholder name

  -- The text that is left, rendered: `none` outside of a placeholder, and within one its name so
  -- far. What opens a placeholder within another, or is never closed, stays as it is.
  unfoldable pub rendered : (within : Option Text) → Text → Text
  rendered none [] = []
  rendered (some name) [] = opened name
  rendered none (c ∷ []) = c ∷ []
  rendered (some name) (c ∷ []) = opened (name ++ c ∷ [])
  rendered none (c ∷ d ∷ rest) = elim (braces c d) [
    | opening ↦ rendered (some []) rest
    | _ ↦ c ∷ rendered none (d ∷ rest)
  ]
  rendered (some name) (c ∷ d ∷ rest) = elim (braces c d) [
    | closing ↦ substitute name ++ rendered none rest
    | opening ↦ opened name ++ rendered (some []) rest
    | neither ↦ rendered (some (name ++ c ∷ [])) (d ∷ rest)
  ]
