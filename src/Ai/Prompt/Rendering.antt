-- ===== src/Ai/Prompt/Rendering.antt =====
-- The source's loop over offsets renders as the pass without them.
use customer_service_chat_sy.Base.{
  ℕ, ◌+◌, true, false, not, ◌&&◌, ◌≡◌, refl, sym, ap, ◌∙◌, inl, inr, List, [], ◌∷◌, ◌++◌, none,
  some, Text, lookup, text_eq, ◌==◌, arith,
}
use customer_service_chat_sy.Ai.Prompt.{
  is_valid_variable_name, utf8_len, drop_bytes, slice, replacement, render_loop, render_prompt,
}
use customer_service_chat_sy.Ai.Prompt.Slices.{
  bytes, append_assoc, append-nil, bytes-append, drop_bytes-append, slice-middle,
}
use customer_service_chat_sy.Ai.Prompt.Reference.{
  braces_cases, opened, placeholder, value_or-some, substitute, rendered,
}

module _ (content : Text) (vars : List (Text × Text)) where
  abbrev Outside : Text → Type 0
  Outside chars =
      (before between output : Text) (offset start : ℕ) (name : Text)
      → content ≡ before ++ (between ++ chars)
      → offset ≡ bytes before + bytes between
      → render_loop content vars false start (bytes before) name (some output) offset chars
        ≡ some (output ++ (between ++ rendered vars none chars))

  abbrev Inside : Text → Type 0
  Inside chars =
      (before name output : Text) (offset last_end : ℕ)
      → content ≡ before ++ (opened name ++ chars)
      → offset ≡ bytes before + bytes (opened name)
      → render_loop content vars true (bytes before) last_end name (some output) offset chars
        ≡ some (output ++ rendered vars (some name) chars)

  rest_of :
      (before rest : Text)
      → content ≡ before ++ rest
      → drop_bytes (bytes before) content ≡ some rest
  rest_of before rest whole = rw whole (drop_bytes-append before rest)

  part_of :
      (before between rest : Text) (offset : ℕ)
      → content ≡ before ++ (between ++ rest)
      → offset ≡ bytes before + bytes between
      → slice content (bytes before) offset ≡ some between
  part_of before between rest offset whole here =
      rw (whole, here) (slice-middle before between rest)

  Outside-end : Outside []
  unfolding render_loop rendered
  Outside-end before between output offset start name whole here =
      rw (rest_of before (between ++ []) whole) refl

  Inside-end : Inside []
  unfolding render_loop rendered
  Inside-end before name output offset last_end whole here =
      rw (rest_of before (opened name ++ []) whole)
        (ap (λ s. some (output ++ s)) (append-nil (opened name)))

  Outside-one : (ch : ℕ) → Outside (ch ∷ [])
  unfolding render_loop rendered
  Outside-one ch before between output offset start name whole here =
      rw (rest_of before (between ++ ch ∷ []) whole) refl

  Inside-one : (ch : ℕ) → Inside (ch ∷ [])
  unfolding render_loop rendered
  Inside-one ch before name output offset last_end whole here =
      rw (rest_of before (opened name ++ ch ∷ []) whole) refl

  module _ (ch next : ℕ) (rest : Text) where
    opens :
        (before between : Text) (offset : ℕ)
        → ch ≡ 123
        → next ≡ 123
        → content ≡ before ++ (between ++ ch ∷ next ∷ rest)
        → offset ≡ bytes before + bytes between
        → (content ≡ (before ++ between) ++ (opened [] ++ rest))
          × (offset ≡ bytes (before ++ between))
          × (bytes (before ++ between) + utf8_len ch + utf8_len next
              ≡ bytes (before ++ between) + bytes (opened []))
    opens before between offset c d whole here = (
      whole ∙ (rw (c, d) (sym (append_assoc before between (123 ∷ 123 ∷ rest)))),
      here ∙ sym (bytes-append before between),
      rw (c, d) (omega arith),
    )

    goes_on :
        (before between : Text) (offset : ℕ)
        → content ≡ before ++ (between ++ ch ∷ next ∷ rest)
        → offset ≡ bytes before + bytes between
        → (content ≡ before ++ ((between ++ ch ∷ []) ++ next ∷ rest))
          × (offset + utf8_len ch ≡ bytes before + bytes (between ++ ch ∷ []))
    goes_on before between offset whole here = (
      whole ∙ ap (λ (s : Text). before ++ s) (sym (append_assoc between (ch ∷ []) (next ∷ rest))),
      rw here (omega (arith, bytes-append between (ch ∷ []))),
    )

    Outside-plain :
        Outside (next ∷ rest)
        → (before between output : Text) (offset start : ℕ) (name : Text)
        → content ≡ before ++ (between ++ ch ∷ next ∷ rest)
        → offset ≡ bytes before + bytes between
        → render_loop content vars false start
            (bytes before)
            name
            (some output)
            (offset + utf8_len ch)
            (next ∷ rest)
          ≡ some (output ++ (between ++ ch ∷ rendered vars none (next ∷ rest)))
    Outside-plain one before between output offset start name whole here =
        let (whole', here') = goes_on before between offset whole here in
        one before (between ++ ch ∷ []) output (offset + utf8_len ch) start name whole' here'
        ∙ ap (λ (s : Text). some (output ++ s))
            (append_assoc between (ch ∷ []) (rendered vars none (next ∷ rest)))

    Outside-step : Inside rest → Outside (next ∷ rest) → Outside (ch ∷ next ∷ rest)
    unfolding render_loop rendered
    Outside-step two one before between output offset start name whole here =
        elim (braces_cases ch next) [
          | inl (b, c, d) ↦
              let (whole', start', here') = opens before between offset c d whole here in
              rw (b, render_loop, rendered)
                (rw (part_of before between (ch ∷ next ∷ rest) offset whole here) (
                  rw start' (
                    two (before ++ between) [] (output ++ between) _ (bytes before) whole' here'
                    ∙ ap some (append_assoc output between _))))
          | inr (inl (b, c, d)) ↦
              rw (b, render_loop, rendered)
                (Outside-plain one before between output offset start name whole here)
          | inr (inr b) ↦
              rw (b, render_loop, rendered)
                (Outside-plain one before between output offset start name whole here)
        ]

    closes :
        (before name : Text) (offset : ℕ)
        → ch ≡ 125
        → next ≡ 125
        → content ≡ before ++ (opened name ++ ch ∷ next ∷ rest)
        → offset ≡ bytes before + bytes (opened name)
        → (content ≡ before ++ (placeholder name ++ rest))
          × (content ≡ (before ++ placeholder name) ++ ([] ++ rest))
          × (offset + 2 ≡ bytes before + bytes (placeholder name))
          × (offset + 2 ≡ bytes (before ++ placeholder name))
          × (offset + utf8_len ch + utf8_len next ≡ offset + 2 + 0)
    closes before name offset c d whole here =
        let parted : content ≡ before ++ (placeholder name ++ rest) =
          whole
          ∙ rw (c, d)
              (ap (λ (s : Text). before ++ s)
                (sym (append_assoc (opened name) (125 ∷ 125 ∷ []) rest))) in
        (
          parted,
          parted ∙ sym (append_assoc before (placeholder name) rest),
          rw here (omega (arith, bytes-append (opened name) (125 ∷ 125 ∷ []))),
          rw here (
              omega (
                arith,
                bytes-append before (placeholder name),
                bytes-append (opened name) (125 ∷ 125 ∷ []),
              )),
          rw (c, d) (omega arith),
        )

    replacement_is :
        (before name : Text) (offset : ℕ)
        → content ≡ before ++ (placeholder name ++ rest)
        → offset ≡ bytes before + bytes (placeholder name)
        → replacement content vars name (bytes before) offset ≡ some (substitute vars name)
    replacement_is before name offset whole here =
        rw (part_of before (placeholder name) rest offset whole here) (
          value_or-some (not (name == []) && is_valid_variable_name name) (lookup name vars)
            (placeholder name))

    Inside-plain :
        Inside (next ∷ rest)
        → (before name output : Text) (offset last_end : ℕ)
        → content ≡ before ++ (opened name ++ ch ∷ next ∷ rest)
        → offset ≡ bytes before + bytes (opened name)
        → render_loop content vars true
            (bytes before)
            last_end
            (name ++ ch ∷ [])
            (some output)
            (offset + utf8_len ch)
            (next ∷ rest)
          ≡ some (output ++ rendered vars (some (name ++ ch ∷ [])) (next ∷ rest))
    Inside-plain one before name output offset last_end whole here =
        let (whole', here') = goes_on before (opened name) offset whole here in
        one before (name ++ ch ∷ []) output (offset + utf8_len ch) last_end whole' here'

    Inside-step : Outside rest → Inside rest → Inside (next ∷ rest) → Inside (ch ∷ next ∷ rest)
    unfolding render_loop rendered
    Inside-step after two one before name output offset last_end whole here =
        elim (braces_cases ch next) [
          | inl (b, c, d) ↦
              let (whole', start', here') = opens before (opened name) offset c d whole here in
              rw (b, render_loop, rendered)
                (rw (part_of before (opened name) (ch ∷ next ∷ rest) offset whole here) (
                  rw start' (
                    two (before ++ opened name) [] (output ++ opened name) _ last_end whole' here'
                    ∙ ap some (append_assoc output (opened name) _))))
          | inr (inl (b, c, d)) ↦
              let (parted, whole', ending, start', here') =
                closes before name offset c d whole here in
              rw (b, render_loop, rendered)
                (rw (replacement_is before name (offset + 2) parted ending) (
                  rw start' (
                    after (before ++ placeholder name) [] (output ++ substitute vars name) _
                      (bytes before) name whole' (omega (arith, start', here'))
                    ∙ ap some (append_assoc output (substitute vars name) _))))
          | inr (inr b) ↦
              rw (b, render_loop, rendered)
                (Inside-plain one before name output offset last_end whole here)
        ]

  loops : (chars : Text) → Outside chars × Inside chars
  loops [] = (Outside-end, Inside-end)
  loops (ch ∷ []) = (Outside-one ch, Inside-one ch)
  loops (ch ∷ next ∷ rest) =
      let two = loops rest in
      let one = loops (next ∷ rest) in
      (Outside-step ch next rest two.1 one.0, Inside-step ch next rest two.0 two.1 one.1)

  -- No slice of `render_prompt` is out of range or off a character's boundary, and its output is the
  -- text rendered without offsets: each placeholder with a valid name that has a value is replaced by
  -- it, and all else stays as it is.
  pub render_prompt-rendered : render_prompt content vars ≡ some (rendered vars none content)
  unfolding render_prompt
  render_prompt-rendered = (loops content).0 [] [] [] 0 0 [] refl refl
