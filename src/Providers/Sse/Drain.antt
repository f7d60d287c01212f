-- ===== src/Providers/Sse/Drain.antt =====
-- Taking the frames off the buffer ends.
use customer_service_chat_sy.Base.{
  ℕ, zero, suc, ◌+◌, ◌≤◌, Bool, true, ◌≡◌, refl, sym, ◌∙◌, inl, inr, List, [], ◌∷◌, Option, none,
  some, Text, length, starts_with, if◌then◌else◌, Bool-cases, Option-cases, Result, arith,
}
use customer_service_chat_sy.Providers.Contract.{ProviderError}
use customer_service_chat_sy.Providers.Sse.{
  SseFrame, take, drop, next_position, find_text, two_lf, two_crlf, find_frame_boundary,
  parse_sse_frame, is_empty_frame, drain,
}

starts_with-length : (s pattern : Text) → starts_with s pattern ≡ true → length pattern ≤ length s
starts_with-length s [] e = omega arith
starts_with-length [] (b ∷ pattern) e = absurd (ground arith)
starts_with-length (a ∷ s) (b ∷ pattern) e = ground (arith, starts_with-length s pattern)

-- A boundary leaves at least two characters fewer.
at_start-shorter :
    (s : Text) (j : ℕ)
    → 2 ≤ length s
    → some 0 ≡ some j
    → length (drop (suc (suc j)) s) + 2 ≤ length s
at_start-shorter [] j two h = absurd (omega (arith, two))
at_start-shorter (c ∷ []) j two h = absurd (omega (arith, two))
at_start-shorter (c ∷ d ∷ s) zero two h = omega arith
at_start-shorter (c ∷ d ∷ s) (suc j) two h = absurd (ground arith)

later-shorter :
    (c : ℕ) (s : Text) (found : Option ℕ) (j : ℕ)
    → ((k : ℕ) → found ≡ some k → length (drop (suc (suc k)) s) + 2 ≤ length s)
    → next_position found ≡ some j
    → length (drop (suc (suc j)) (c ∷ s)) + 2 ≤ length (c ∷ s)
later-shorter c s none j less h = absurd (ground arith)
later-shorter c s (some k) zero less h = absurd (ground arith)
later-shorter c s (some k) (suc j) less h = omega (arith, less j (cc h))

drop-shorter :
    (pattern s : Text) (i : ℕ)
    → 2 ≤ length pattern
    → find_text pattern s ≡ some i
    → length (drop (suc (suc i)) s) + 2 ≤ length s
drop-shorter pattern [] i long e = elim (Bool-cases (starts_with [] pattern)) [
  | inl hit ↦ absurd (omega (arith, starts_with-length [] pattern hit, long))
  | inr miss ↦ absurd (ground (arith, miss))
]
drop-shorter pattern (c ∷ s) i long e = elim (Bool-cases (starts_with (c ∷ s) pattern)) [
  | inl hit ↦
      at_start-shorter (c ∷ s) i (omega (arith, starts_with-length (c ∷ s) pattern hit, long))
        (rw hit at e)
  | inr miss ↦
      later-shorter c s (find_text pattern s) i (λ k. drop-shorter pattern s k long) (rw miss at e)
]

pub boundary-shorter :
    (buf : Text) (i : ℕ)
    → find_frame_boundary buf ≡ some i
    → length (drop (suc (suc i)) buf) + 2 ≤ length buf
unfolding find_frame_boundary
boundary-shorter buf i e = elim (Option-cases (find_text two_lf buf)) [
  | inl missing ↦ drop-shorter two_crlf buf i (omega arith) (rw missing at e)
  | inr (j, found) ↦ drop-shorter two_lf buf i (omega arith) (found ∙ rw found at e)
]

module _ (is_whitespace : ℕ → Bool) where
  abbrev pub taken :
      Text → ℕ → List (Result SseFrame ProviderError) → List (Result SseFrame ProviderError)
  taken buf i frames =
      let frame = parse_sse_frame is_whitespace (take i buf) in
      if is_empty_frame frame then frames else frame ∷ frames

  pub drain-none :
      (fuel : ℕ) (buf : Text)
      → find_frame_boundary buf ≡ none
      → drain is_whitespace fuel buf ≡ ([], buf)
  unfolding drain
  drain-none zero buf e = refl
  drain-none (suc fuel) buf e = rw (e, drain) refl

  pub drain-some :
      (fuel : ℕ) (buf : Text) (i : ℕ)
      → find_frame_boundary buf ≡ some i
      → drain is_whitespace (suc fuel) buf ≡ (
        taken buf i (drain is_whitespace fuel (drop (suc (suc i)) buf)).0,
        (drain is_whitespace fuel (drop (suc (suc i)) buf)).1,
      )
  unfolding drain
  drain-some fuel buf i e = rw (e, drain) refl

  -- More fuel than the length of the buffer changes nothing.
  pub drain_enough :
      (f g : ℕ) (buf : Text)
      → length buf ≤ f
      → length buf ≤ g
      → drain is_whitespace f buf ≡ drain is_whitespace g buf
  drain_enough zero g buf big big' = elim (Option-cases (find_frame_boundary buf)) [
    | inl missing ↦ drain-none zero buf missing ∙ sym (drain-none g buf missing)
    | inr (i, found) ↦ absurd (omega (arith, boundary-shorter buf i found, big))
  ]
  drain_enough (suc f) zero buf big big' = elim (Option-cases (find_frame_boundary buf)) [
    | inl missing ↦ drain-none (suc f) buf missing ∙ sym (drain-none zero buf missing)
    | inr (i, found) ↦ absurd (omega (arith, boundary-shorter buf i found, big'))
  ]
  drain_enough (suc f) (suc g) buf big big' = elim (Option-cases (find_frame_boundary buf)) [
    | inl missing ↦ drain-none (suc f) buf missing ∙ sym (drain-none (suc g) buf missing)
    | inr (i, found) ↦
        let less = boundary-shorter buf i found in
        drain-some f buf i found
        ∙ rw
            (drain_enough f g (drop (suc (suc i)) buf) (omega (arith, less, big))
              (omega (arith, less, big')))
            (sym (drain-some g buf i found))
  ]

  -- The loop ends only when the buffer holds no boundary any more.
  pub drain_done :
      (fuel : ℕ) (buf : Text)
      → length buf ≤ fuel
      → find_frame_boundary (drain is_whitespace fuel buf).1 ≡ none
  drain_done zero buf big = elim (Option-cases (find_frame_boundary buf)) [
    | inl missing ↦ rw (drain-none zero buf missing) missing
    | inr (i, found) ↦ absurd (omega (arith, boundary-shorter buf i found, big))
  ]
  drain_done (suc fuel) buf big = elim (Option-cases (find_frame_boundary buf)) [
    | inl missing ↦ rw (drain-none (suc fuel) buf missing) missing
    | inr (i, found) ↦ rw (drain-some fuel buf i found) (
        drain_done fuel (drop (suc (suc i)) buf) (omega (arith, boundary-shorter buf i found, big)))
  ]
