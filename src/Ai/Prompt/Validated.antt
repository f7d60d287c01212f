-- ===== src/Ai/Prompt/Validated.antt =====
-- A prompt that is accepted is text and placeholders of known variables, and renders as such.
use customer_service_chat_sy.Base.{
  ℕ, ◌≤◌, Bool, true, false, not, ◌&&◌, ◌≡◌, refl, sym, ap, ◌∙◌, inl, inr, List, [], ◌∷◌, ◌++◌,
  none, some, Text, ltb, all, any, length, lookup, text_eq, ◌==◌, if◌then◌else◌, ok, arith, All,
}
use customer_service_chat_sy.Ai.Prompt.{
  ValidationIssue, variables, is_valid_variable_name, opening, closing, neither, braces,
  name_issues, validate_loop, required_issues, length_issues, accepted, max_content_length,
  validate_prompt, render_prompt,
}
use customer_service_chat_sy.Ai.Prompt.Slices.{append_assoc}
use customer_service_chat_sy.Ai.Prompt.Reference.{
  braces_cases, opened, placeholder, value_of, rendered,
}
use customer_service_chat_sy.Ai.Prompt.Rendering.{render_prompt-rendered}

-- A character, or a placeholder.
pub data Piece : Type 0 where
  literal : ℕ → Piece
  variable : (name : Text) → Piece

abbrev pub IsKnown : Piece → Type 0
IsKnown (literal c) = Unit
IsKnown (variable name) = any (λ v. v == name) variables ≡ true

abbrev pub print : List Piece → Text
print [] = []
print (literal c ∷ ps) = c ∷ print ps
print (variable name ∷ ps) = placeholder name ++ print ps

-- Each placeholder replaced by the value of its variable, if it has one.
abbrev pub fill : List (Text × Text) → List Piece → Text
fill vars [] = []
fill vars (literal c ∷ ps) = c ∷ fill vars ps
fill vars (variable name ∷ ps) = value_of (lookup name vars) (placeholder name) ++ fill vars ps

append_empty {ℓ} : {A : Type ℓ} (xs ys : List A) → xs ++ ys ≡ [] → (xs ≡ []) × (ys ≡ [])
append_empty [] ys e = (refl, e)
append_empty (x ∷ xs) ys e = absurd (ground arith)

three_tests {ℓ} :
    {A : Type ℓ} (a b c : Bool) (x y z : A)
    → (if a then x ∷ [] else if not b then y ∷ [] else if not c then z ∷ [] else []) ≡ []
    → ((not a && b) ≡ true) × (c ≡ true)
three_tests true b c x y z e = absurd (ground arith)
three_tests false false c x y z e = absurd (ground arith)
three_tests false true false x y z e = absurd (ground arith)
three_tests false true true x y z e = (refl, refl)

module _ (decimal : ℕ → Text) where
  sound_name :
      (name : Text) (start : ℕ)
      → name_issues decimal name start ≡ []
      → ((not (name == []) && is_valid_variable_name name) ≡ true)
        × (any (λ v. v == name) variables ≡ true)
  sound_name name start e =
      three_tests (name == []) (is_valid_variable_name name) (any (λ v. v == name) variables) _ _ _
        e

  -- The text that is left is made of pieces and renders as they do.
  pub record IsPieces (chars : Text) : Type 0 where
    pub pieces : List Piece
    pub known : All IsKnown pieces
    pub printed : chars ≡ print pieces
    pub filled : (vars : List (Text × Text)) → rendered vars none chars ≡ fill vars pieces

  -- So it is within a placeholder, whose name goes on.
  pub record IsWithin (name chars : Text) : Type 0 where
    pub whole_name : Text
    pub pieces : List Piece
    pub name_known : IsKnown (variable whole_name)
    pub known : All IsKnown pieces
    pub printed : opened name ++ chars ≡ print (variable whole_name ∷ pieces)
    pub filled :
        (vars : List (Text × Text))
        → rendered vars (some name) chars ≡ fill vars (variable whole_name ∷ pieces)

  abbrev Outside : Text → Type 0
  Outside chars =
      (start offset : ℕ) (name : Text)
      → validate_loop decimal false start name offset chars ≡ []
      → IsPieces chars

  abbrev Inside : Text → Type 0
  Inside chars =
      (start offset : ℕ) (name : Text)
      → validate_loop decimal true start name offset chars ≡ []
      → IsWithin name chars

  one_literal : (c : ℕ) → IsPieces (c ∷ [])
  unfolding rendered
  one_literal c = record {
    pieces = literal c ∷ [];
    known = (tt, tt);
    printed = refl;
    filled = λ vars. refl;
  }

  module _ (ch next : ℕ) (rest : Text) where
    literal_first : IsPieces (next ∷ rest) → braces ch next ≡ neither → IsPieces (ch ∷ next ∷ rest)
    unfolding rendered
    literal_first after b = record {
      pieces = literal ch ∷ after.pieces;
      known = (tt, after.known);
      printed = ap (λ (s : Text). ch ∷ s) after.printed;
      filled = λ vars. rw (b, rendered) (ap (λ (s : Text). ch ∷ s) (after.filled vars));
    }

    placeholder_first :
        IsWithin [] rest
        → braces ch next ≡ opening
        → ch ≡ 123
        → next ≡ 123
        → IsPieces (ch ∷ next ∷ rest)
    unfolding rendered
    placeholder_first within b c d = record {
      pieces = variable within.whole_name ∷ within.pieces;
      known = (within.name_known, within.known);
      printed = rw (c, d) within.printed;
      filled = λ vars. rw (b, rendered) (within.filled vars);
    }

    ends_here :
        (start : ℕ) (name : Text)
        → name_issues decimal name start ≡ []
        → IsPieces rest
        → braces ch next ≡ closing
        → ch ≡ 125
        → next ≡ 125
        → IsWithin name (ch ∷ next ∷ rest)
    unfolding rendered
    ends_here start name sound after b c d =
        let (valid, known) = sound_name name start sound in
        record {
          whole_name = name;
          pieces = after.pieces;
          name_known = known;
          known = after.known;
          printed =
              rw (c, d)
                (sym (append_assoc (opened name) (125 ∷ 125 ∷ []) rest)
                  ∙ ap (λ (s : Text). placeholder name ++ s) after.printed);
          filled = λ vars.
              rw (b, rendered)
                (rw valid (
                  ap (λ (s : Text). value_of (lookup name vars) (placeholder name) ++ s)
                    (after.filled vars)));
        }

    name_goes_on :
        (name : Text)
        → IsWithin (name ++ ch ∷ []) (next ∷ rest)
        → braces ch next ≡ neither
        → IsWithin name (ch ∷ next ∷ rest)
    unfolding rendered
    name_goes_on name within b = record {
      whole_name = within.whole_name;
      pieces = within.pieces;
      name_known = within.name_known;
      known = within.known;
      printed = sym (append_assoc (opened name) (ch ∷ []) (next ∷ rest)) ∙ within.printed;
      filled = λ vars. rw (b, rendered) (within.filled vars);
    }

    Outside-step : Inside rest → Outside (next ∷ rest) → Outside (ch ∷ next ∷ rest)
    unfolding validate_loop rendered
    Outside-step two one start offset name e = elim (braces_cases ch next) [
      | inl (b, c, d) ↦ placeholder_first (two offset _ [] (rw (b, validate_loop) at e)) b c d
      | inr (inl (b, c, d)) ↦ absurd (ground (arith, rw (b, validate_loop) at e))
      | inr (inr b) ↦ literal_first (one start _ name (rw (b, validate_loop) at e)) b
    ]

    Inside-step : Outside rest → Inside (next ∷ rest) → Inside (ch ∷ next ∷ rest)
    unfolding validate_loop rendered
    Inside-step after one start offset name e = elim (braces_cases ch next) [
      | inl (b, c, d) ↦ absurd (ground (arith, rw (b, validate_loop) at e))
      | inr (inl (b, c, d)) ↦
          let (sound, later) =
            append_empty (name_issues decimal name start) _ (rw (b, validate_loop) at e) in
          ends_here start name sound (after start _ name later) b c d
      | inr (inr b) ↦
          name_goes_on name (one start _ (name ++ ch ∷ []) (rw (b, validate_loop) at e)) b
    ]

  loops : (chars : Text) → Outside chars × Inside chars
  unfolding validate_loop rendered
  loops [] = (
    λ start offset name e. record {
      pieces = [];
      known = tt;
      printed = refl;
      filled = λ vars. refl;
    },
    λ start offset name e. absurd (ground arith),
  )
  loops (ch ∷ []) =
      (λ start offset name e. one_literal ch, λ start offset name e. absurd (ground arith))
  loops (ch ∷ next ∷ rest) =
      let two = loops rest in
      let one = loops (next ∷ rest) in
      (Outside-step ch next rest two.1 one.0, Inside-step ch next rest two.0 one.1)

accepted_none : (issues : List ValidationIssue) → accepted issues ≡ ok tt → issues ≡ []
accepted_none [] e = refl
accepted_none (issue ∷ issues) e = absurd (ground arith)

untested {ℓ} : {A : Type ℓ} (b : Bool) (x : A) → (if b then x ∷ [] else []) ≡ [] → b ≡ false
untested true x e = absurd (ground arith)
untested false x e = refl

-- What an accepted prompt is.
pub record IsAccepted (is_whitespace : ℕ → Bool) (content : Text) : Type 0 where
  pub not_blank : all is_whitespace content ≡ false
  pub bounded : length content ≤ 8000
  pub pieces : List Piece
  pub known : All IsKnown pieces
  pub printed : content ≡ print pieces
  pub filled : (vars : List (Text × Text)) → render_prompt content vars ≡ some (fill vars pieces)

-- A prompt that `validate_prompt` accepts is not blank, has at most 8000 characters, and is made of
-- single characters and placeholders of the known variables; for all values `render_prompt` replaces
-- exactly these placeholders, each that has a value by it, and gives the characters back as they are.
pub validate_prompt-IsAccepted :
    (decimal : ℕ → Text) (is_whitespace : ℕ → Bool) (content : Text)
    → validate_prompt decimal is_whitespace content ≡ ok tt
    → IsAccepted is_whitespace content
unfolding validate_prompt
validate_prompt-IsAccepted decimal is_whitespace content e =
    let required = required_issues decimal is_whitespace content in
    let too_long = length_issues decimal is_whitespace content in
    let others = validate_loop decimal false 0 [] 0 content in
    let (no_required, later) =
      append_empty required (too_long ++ others)
        (accepted_none (required ++ (too_long ++ others)) e) in
    let (no_length, no_issue) = append_empty too_long others later in
    let whole = (loops decimal content).0 0 0 [] no_issue in
    let short : ltb max_content_length (length content) ≡ false =
      untested (ltb max_content_length (length content)) _ no_length in
    record {
      not_blank = untested (all is_whitespace content) _ no_required;
      bounded = ground (arith, short);
      pieces = whole.pieces;
      known = whole.known;
      printed = whole.printed;
      filled = λ vars. render_prompt-rendered content vars ∙ ap some (whole.filled vars);
    }
