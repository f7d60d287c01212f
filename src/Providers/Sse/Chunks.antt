-- ===== src/Providers/Sse/Chunks.antt =====
-- Where the chunks of a stream end makes no difference to its frames.
use customer_service_chat_sy.Base.{
  ℕ, zero, suc, ◌≤◌, Bool, true, ◌≡◌, refl, sym, ap, ◌∙◌, inl, inr, List, [], ◌∷◌, ◌++◌, map, some,
  Text, length, length-append, Bool-cases, Option-cases, Result, arith,
}
use customer_service_chat_sy.Providers.Contract.{ProviderError}
use customer_service_chat_sy.Providers.Sse.{
  SseFrame, chunk, take, drop, find_frame_boundary, parse_sse_frame, is_empty_frame, drain,
  sse_loop, sse_frames,
}
use customer_service_chat_sy.Providers.Sse.Drain.{
  boundary-shorter, taken, drain-none, drain-some, drain_enough,
}
use customer_service_chat_sy.Providers.Sse.LineFeeds.{
  is_lf, is_lf-append, is_lf-both, is_lf-drop, lf_boundary, IsStable, stable,
}

append_assoc {ℓ} : {A : Type ℓ} (a b c : List A) → (a ++ b) ++ c ≡ a ++ (b ++ c)
append_assoc [] b c = refl
append_assoc (x ∷ a) b c = ap (λ s. x ∷ s) (append_assoc a b c)

append-nil {ℓ} : {A : Type ℓ} (a : List A) → a ++ [] ≡ a
append-nil [] = refl
append-nil (x ∷ a) = ap (λ s. x ∷ s) (append-nil a)

abbrev with_left :
    Text → List (Result SseFrame ProviderError) → List (Result SseFrame ProviderError) × Text
with_left left frames = (frames, left)

module _ (is_whitespace : ℕ → Bool) where
  taken-append :
      (buf : Text) (i : ℕ) (xs ys : List (Result SseFrame ProviderError))
      → taken is_whitespace buf i (xs ++ ys) ≡ taken is_whitespace buf i xs ++ ys
  taken-append buf i xs ys =
      elim (Bool-cases (is_empty_frame (parse_sse_frame is_whitespace (take i buf)))) [
        | inl empty ↦ rw empty refl
        | inr full ↦ rw full refl
      ]

  abbrev whole : Text → List (Result SseFrame ProviderError) × Text
  whole buf = drain is_whitespace (length buf) buf

  first_frame :
      (buf more : Text) (i : ℕ) (left : Text)
      → IsStable buf more i
      → find_frame_boundary (buf ++ more) ≡ some i
      → drop (suc (suc i)) (buf ++ more) ≡ left ++ more
      → length (left ++ more) ≤ length (buf ++ more)
      → whole (buf ++ more)
        ≡ (taken is_whitespace buf i (whole (left ++ more)).0, (whole (left ++ more)).1)
  first_frame buf more i left st found dropped shorter =
      drain_enough is_whitespace (length (buf ++ more)) (suc (length (buf ++ more))) (buf ++ more)
        (omega arith) (omega arith)
      ∙ drain-some is_whitespace (length (buf ++ more)) (buf ++ more) i found
      ∙ rw (dropped, st.same_taken)
          (rw
            (drain_enough is_whitespace (length (buf ++ more)) (length (left ++ more))
              (left ++ more) shorter (omega arith))
            refl)

  -- What the buffer holds can be taken off before more arrives.
  drain-append :
      (fuel : ℕ) (buf more : Text)
      → length buf ≤ fuel
      → is_lf (buf ++ more) ≡ true
      → let (frames, left) = drain is_whitespace fuel buf in
        whole (buf ++ more) ≡ (frames ++ (whole (left ++ more)).0, (whole (left ++ more)).1)
  drain-append zero buf more big lf = elim (Option-cases (find_frame_boundary buf)) [
    | inl missing ↦ rw (drain-none is_whitespace zero buf missing) refl
    | inr (i, found) ↦ absurd (omega (arith, boundary-shorter buf i found, big))
  ]
  drain-append (suc fuel) buf more big lf = elim (Option-cases (find_frame_boundary buf)) [
    | inl missing ↦ rw (drain-none is_whitespace (suc fuel) buf missing) refl
    | inr (i, found) ↦
        let (lf_buf, lf_more) = is_lf-append buf more lf in
        let st = stable buf more i (sym (lf_boundary buf lf_buf) ∙ found) in
        let left = drop (suc (suc i)) buf in
        let left_lf = is_lf-both left more (is_lf-drop (suc (suc i)) buf lf_buf) lf_more in
        let less = boundary-shorter buf i found in
        let earlier = drain-append fuel left more (omega (arith, less, big)) left_lf in
        rw (drain-some is_whitespace fuel buf i found) (
          first_frame buf more i left st (lf_boundary (buf ++ more) lf ∙ st.still_found)
            st.same_left (omega (arith, less, length-append buf more, length-append left more))
          ∙ rw earlier (ap (with_left _) (taken-append buf i _ _)))
  ]

module _ (from_utf8_lossy : List ℕ → Text) (is_whitespace : ℕ → Bool) where
  -- The text that the chunks hold together.
  abbrev pub text_of : List (List ℕ) → Text
  text_of [] = []
  text_of (bytes ∷ chunks) = from_utf8_lossy bytes ++ text_of chunks

  left_lf :
      (fuel : ℕ) (buf : Text) → is_lf buf ≡ true → is_lf (drain is_whitespace fuel buf).1 ≡ true
  unfolding drain
  left_lf zero buf lf = lf
  left_lf (suc fuel) buf lf = elim (Option-cases (find_frame_boundary buf)) [
    | inl missing ↦ rw (drain-none is_whitespace (suc fuel) buf missing) lf
    | inr (i, found) ↦
        rw (drain-some is_whitespace fuel buf i found)
          (left_lf fuel (drop (suc (suc i)) buf) (is_lf-drop (suc (suc i)) buf lf))
  ]

  sse_loop-whole :
      (buf : Text) (chunks : List (List ℕ))
      → is_lf (buf ++ text_of chunks) ≡ true
      → sse_loop from_utf8_lossy is_whitespace buf (map chunk chunks)
        ≡ (whole is_whitespace (buf ++ text_of chunks)).0
  unfolding sse_loop
  sse_loop-whole buf [] lf = rw (append-nil buf) refl
  sse_loop-whole buf (bytes ∷ chunks) lf =
      let more = from_utf8_lossy bytes ++ text_of chunks in
      let (lf_buf, lf_more) = is_lf-append buf more lf in
      let (frames, left) = drain is_whitespace (length buf) buf in
      let joined = append_assoc left (from_utf8_lossy bytes) (text_of chunks) in
      let later =
        sse_loop-whole (left ++ from_utf8_lossy bytes) chunks
          (rw joined (is_lf-both left more (left_lf (length buf) buf lf_buf) lf_more)) in
      rw (drain-append is_whitespace (length buf) buf more (omega arith) lf)
        (ap (λ fs. frames ++ fs) (later ∙ ap (λ (t : Text). (whole is_whitespace t).0) joined))

  -- Two streams of chunks whose decoded text is the same, with no carriage return in it, give the same
  -- frames, wherever their chunks end, also within a frame or between its two line feeds.
  pub sse_frames-text_of :
      (chunks chunks' : List (List ℕ))
      → is_lf (text_of chunks) ≡ true
      → text_of chunks ≡ text_of chunks'
      → sse_frames from_utf8_lossy is_whitespace (map chunk chunks)
        ≡ sse_frames from_utf8_lossy is_whitespace (map chunk chunks')
  unfolding sse_frames
  sse_frames-text_of chunks chunks' lf same =
      sse_loop-whole [] chunks lf
      ∙ ap (λ (t : Text). (whole is_whitespace t).0) same
      ∙ sym (sse_loop-whole [] chunks' (rw same at lf))
