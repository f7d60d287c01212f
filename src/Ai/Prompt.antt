-- ===== src/Ai/Prompt.antt =====
-- A prompt's placeholders: backend/crates/modules/ai/src/prompt_validate.rs. Offsets are those of the
-- UTF-8 bytes, as in the source. A slice is `none` where the source panics, off a character's
-- boundary or beyond the end. Which characters are white space, and how a number is written, are
-- parameters.
pub mod Slices
pub mod Reference
pub mod Rendering
pub mod Validated
mod Examples
use customer_service_chat_sy.Base.{
  ℕ, ◌+◌, ◌-◌, Bool, true, false, not, ◌&&◌, ◌||◌, List, [], ◌∷◌, ◌++◌, Option, none, some, Text,
  codes, eqb, ltb, leb, all, any, length, lookup, text_eq, ◌==◌, if◌then◌else◌, Result, ok, err,
}

pub record ValidationIssue : Type 0 where
  pub field : Text
  pub code : Text
  pub message : Text

-- The names of `VARIABLES`.
abbrev pub variables : List Text
variables = codes "agent_name" ∷ codes "tenant_name" ∷ codes "customer_name" ∷ codes "channel" ∷ []

abbrev pub max_content_length : ℕ
max_content_length = 8000

abbrev pub max_change_note_length : ℕ
max_change_note_length = 500

-- `is_ascii_lowercase` and `is_ascii_digit`.
abbrev pub is_ascii_lowercase : ℕ → Bool
is_ascii_lowercase c = leb 97 c && leb c 122

abbrev pub is_ascii_digit : ℕ → Bool
is_ascii_digit c = leb 48 c && leb c 57

abbrev pub is_name_char : ℕ → Bool
is_name_char c = is_ascii_lowercase c || (is_ascii_digit c || eqb c 95)

abbrev pub is_valid_variable_name : Text → Bool
is_valid_variable_name [] = false
is_valid_variable_name (c ∷ name) = is_ascii_lowercase c && all is_name_char name

-- The bytes of a character in UTF-8.
abbrev pub utf8_len : ℕ → ℕ
utf8_len c = if ltb c 128 then 1 else if ltb c 2048 then 2 else if ltb c 65536 then 3 else 4

-- What two characters are together.
pub data Braces : Type 0 where
  opening closing neither : Braces

abbrev pub braces : (ch next : ℕ) → Braces
braces ch next =
    if eqb ch 123 && eqb next 123
    then opening
    else if eqb ch 125 && eqb next 125
    then closing
    else neither

abbrev pub accepted : List ValidationIssue → Result Unit (List ValidationIssue)
accepted [] = ok tt
accepted (issue ∷ issues) = err (issue ∷ issues)

module _ (decimal : ℕ → Text) where
  abbrev pub malformed : Text → (offset : ℕ) → ValidationIssue
  malformed what offset = record {
    field = codes "content";
    code = codes "malformed_placeholder";
    message = what ++ codes " at offset " ++ decimal offset;
  }

  -- What a placeholder's end finds wrong with its name.
  abbrev pub name_issues : (name : Text) → (placeholder_start : ℕ) → List ValidationIssue
  name_issues name placeholder_start =
      if name == []
      then malformed (codes "empty placeholder") placeholder_start ∷ []
      else if not (is_valid_variable_name name)
      then malformed (codes "invalid placeholder '" ++ name ++ codes "'") placeholder_start ∷ []
      else if not (any (λ v. v == name) variables)
      then record {
        field = codes "content";
        code = codes "unknown_variable";
        message =
            codes "unknown variable '" ++ name ++ codes "' at offset " ++ decimal placeholder_start;
      }
        ∷ []
      else []

  -- The loop of `validate_prompt`, over the characters that are left; `offset` is that of the next
  -- one. The issues of each round come before those of the later ones.
  unfoldable pub validate_loop :
      (in_placeholder : Bool)
      → (placeholder_start : ℕ) → (name : Text) → (offset : ℕ) → (chars : Text)
      → List ValidationIssue
  validate_loop false placeholder_start name offset [] = []
  validate_loop true placeholder_start name offset [] =
      malformed (codes "unclosed placeholder") placeholder_start ∷ []
  validate_loop false placeholder_start name offset (ch ∷ []) =
      validate_loop false placeholder_start name (offset + utf8_len ch) []
  validate_loop true placeholder_start name offset (ch ∷ []) =
      validate_loop true placeholder_start (name ++ ch ∷ []) (offset + utf8_len ch) []
  validate_loop false placeholder_start name offset (ch ∷ next ∷ rest) =
      let later = offset + utf8_len ch + utf8_len next in
      elim (braces ch next) [
        | opening ↦ validate_loop true offset [] later rest
        | closing ↦
            malformed (codes "stray closing braces") offset
            ∷ validate_loop false placeholder_start name later rest
        | neither ↦ validate_loop false placeholder_start name (offset + utf8_len ch) (next ∷ rest)
      ]
  validate_loop true placeholder_start name offset (ch ∷ next ∷ rest) =
      let later = offset + utf8_len ch + utf8_len next in
      elim (braces ch next) [
        | closing ↦
            name_issues name placeholder_start
            ++ validate_loop false placeholder_start name later rest
        | opening ↦
            malformed (codes "unclosed placeholder") placeholder_start
            ∷ validate_loop true offset [] later rest
        | neither ↦
            validate_loop true placeholder_start (name ++ ch ∷ []) (offset + utf8_len ch)
              (next ∷ rest)
      ]

  module _ (is_whitespace : ℕ → Bool) where
    -- `trim().is_empty()`.
    abbrev pub is_blank : Text → Bool
    is_blank content = all is_whitespace content

    abbrev pub required_issues : Text → List ValidationIssue
    required_issues content =
        if is_blank content
        then record {
          field = codes "content";
          code = codes "required";
          message = codes "prompt content is required";
        }
          ∷ []
        else []

    abbrev pub length_issues : Text → List ValidationIssue
    length_issues content =
        if ltb max_content_length (length content)
        then record {
          field = codes "content";
          code = codes "too_long";
          message = codes "prompt content must not exceed 8000 characters";
        }
          ∷ []
        else []

    unfoldable pub validate_prompt : (content : Text) → Result Unit (List ValidationIssue)
    validate_prompt content =
        accepted
          (required_issues content ++ (length_issues content ++ validate_loop false 0 [] 0 content))

abbrev pub validate_change_note : (note : Text) → Result Unit (List ValidationIssue)
validate_change_note note =
    if ltb max_change_note_length (length note)
    then err (
        record {
          field = codes "changeNote";
          code = codes "invalid_length";
          message = codes "change note must not exceed 500 characters";
        }
        ∷ [])
    else ok tt

-- `&content[a..]` and `&content[..b]`.
unfoldable pub drop_bytes : ℕ → Text → Option Text
drop_bytes n [] = if eqb n 0 then some [] else none
drop_bytes n (c ∷ s) =
    let rest = drop_bytes (n - utf8_len c) s in
    if eqb n 0 then some (c ∷ s) else if leb (utf8_len c) n then rest else none

abbrev pub cons_to : ℕ → Option Text → Option Text
cons_to c none = none
cons_to c (some s) = some (c ∷ s)

unfoldable pub take_bytes : ℕ → Text → Option Text
take_bytes n [] = if eqb n 0 then some [] else none
take_bytes n (c ∷ s) =
    let rest = take_bytes (n - utf8_len c) s in
    if eqb n 0 then some [] else if leb (utf8_len c) n then cons_to c rest else none

abbrev take_of : ℕ → Option Text → Option Text
take_of n none = none
take_of n (some s) = take_bytes n s

-- `&content[a..b]`.
unfoldable pub slice : Text → (a b : ℕ) → Option Text
slice content a b = if leb a b then take_of (b - a) (drop_bytes a content) else none

-- `push_str`, of which either side may have panicked.
abbrev pub push_str : (output pushed : Option Text) → Option Text
push_str none pushed = none
push_str (some output) none = none
push_str (some output) (some pushed) = some (output ++ pushed)

abbrev pub value_or : Option Text → Option Text → Option Text
value_or (some value) kept = some value
value_or none kept = kept

module _ (content : Text) (vars : List (Text × Text)) where
  -- What a placeholder that ends at `end_offset` is replaced by.
  abbrev pub replacement : (name : Text) → (placeholder_start end_offset : ℕ) → Option Text
  replacement name placeholder_start end_offset =
      let kept = slice content placeholder_start end_offset in
      if not (name == []) && is_valid_variable_name name
      then value_or (lookup name vars) kept
      else kept

  -- The loop of `render_prompt`, over the characters that are left.
  unfoldable pub render_loop :
      (in_placeholder : Bool)
      → (placeholder_start last_end : ℕ) → (name : Text) → (output : Option Text) → (offset : ℕ)
      → (chars : Text) → Option Text
  render_loop false placeholder_start last_end name output offset [] =
      push_str output (drop_bytes last_end content)
  render_loop true placeholder_start last_end name output offset [] =
      push_str output (drop_bytes placeholder_start content)
  render_loop false placeholder_start last_end name output offset (ch ∷ []) =
      render_loop false placeholder_start last_end name output (offset + utf8_len ch) []
  render_loop true placeholder_start last_end name output offset (ch ∷ []) =
      render_loop true placeholder_start last_end (name ++ ch ∷ []) output (offset + utf8_len ch) []
  render_loop false placeholder_start last_end name output offset (ch ∷ next ∷ rest) =
      elim (braces ch next) [
        | opening ↦
            render_loop true offset last_end [] (push_str output (slice content last_end offset))
              (offset + utf8_len ch + utf8_len next) rest
        | _ ↦
            render_loop false placeholder_start last_end name output (offset + utf8_len ch)
              (next ∷ rest)
      ]
  render_loop true placeholder_start last_end name output offset (ch ∷ next ∷ rest) =
      elim (braces ch next) [
        | closing ↦
            render_loop false placeholder_start (offset + 2) name
              (push_str output (replacement name placeholder_start (offset + 2)))
              (offset + utf8_len ch + utf8_len next) rest
        | opening ↦
            render_loop true offset last_end []
              (push_str output (slice content placeholder_start offset))
              (offset + utf8_len ch + utf8_len next) rest
        | neither ↦
            render_loop true placeholder_start last_end (name ++ ch ∷ []) output
              (offset + utf8_len ch) (next ∷ rest)
      ]

  unfoldable pub render_prompt : Option Text
  render_prompt = render_loop false 0 0 [] (some []) 0 content
