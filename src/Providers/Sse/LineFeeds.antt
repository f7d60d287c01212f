-- ===== src/Providers/Sse/LineFeeds.antt =====
-- The boundaries of a text without carriage returns.
use customer_service_chat_sy.Base.{
  ℕ, zero, suc, Bool, true, false, not, ◌≡◌, refl, ap, inl, inr, [], ◌∷◌, ◌++◌, Option, none, some,
  Text, eqb, all, starts_with, Bool-cases, arith,
}
use customer_service_chat_sy.Providers.Sse.{
  take, drop, next_position, find_text, two_lf, two_crlf, or_else, find_frame_boundary,
}

-- No carriage return.
abbrev pub is_lf : Text → Bool
is_lf t = all (λ c. not (eqb c 13)) t

pub is_lf-append : (s t : Text) → is_lf (s ++ t) ≡ true → (is_lf s ≡ true) × (is_lf t ≡ true)
is_lf-append [] t h = (refl, h)
is_lf-append (c ∷ s) t h = ground (arith, is_lf-append s t)

pub is_lf-both : (s t : Text) → is_lf s ≡ true → is_lf t ≡ true → is_lf (s ++ t) ≡ true
is_lf-both [] t h h' = h'
is_lf-both (c ∷ s) t h h' = ground (arith, is_lf-both s t)

pub is_lf-drop : (n : ℕ) (s : Text) → is_lf s ≡ true → is_lf (drop n s) ≡ true
is_lf-drop zero s h = h
is_lf-drop (suc n) [] h = refl
is_lf-drop (suc n) (c ∷ s) h = is_lf-drop n s (ground arith)

no_crlf : (s : Text) → is_lf s ≡ true → find_text two_crlf s ≡ none
no_crlf [] h = refl
no_crlf (c ∷ s) h =
    let miss : starts_with (c ∷ s) two_crlf ≡ false = ground arith in
    rw miss (rw (no_crlf s (ground arith)) refl)

pub lf_boundary : (s : Text) → is_lf s ≡ true → find_frame_boundary s ≡ find_text two_lf s
unfolding find_frame_boundary
lf_boundary s h = rw (no_crlf s h) (or_none (find_text two_lf s))
  where
    or_none : (found : Option ℕ) → or_else found none ≡ found
    or_none none = refl
    or_none (some i) = refl

-- What follows a boundary does not move it.
pub record IsStable (s more : Text) (i : ℕ) : Type 0 where
  pub still_found : find_text two_lf (s ++ more) ≡ some i
  pub same_taken : take i (s ++ more) ≡ take i s
  pub same_left : drop (suc (suc i)) (s ++ more) ≡ drop (suc (suc i)) s ++ more

not_zero : (found : Option ℕ) → next_position found ≡ some 0 → ⊥
not_zero none e = ground arith
not_zero (some k) e = ground arith

predecessor : (found : Option ℕ) (i : ℕ) → next_position found ≡ some (suc i) → found ≡ some i
predecessor none i e = absurd (ground arith)
predecessor (some k) i e = cc e

pub stable : (s more : Text) (i : ℕ) → find_text two_lf s ≡ some i → IsStable s more i
stable [] more i e = absurd (ground arith)
stable (c ∷ []) more i e = absurd (ground arith)
stable (c ∷ d ∷ s) more zero e = elim (Bool-cases (starts_with (c ∷ d ∷ s) two_lf)) [
  | inl hit ↦ record { still_found = rw hit refl; same_taken = refl; same_left = refl }
  | inr miss ↦ absurd (not_zero (find_text two_lf (d ∷ s)) (rw miss at e))
]
stable (c ∷ d ∷ s) more (suc i) e = elim (Bool-cases (starts_with (c ∷ d ∷ s) two_lf)) [
  | inl hit ↦ absurd (ground (arith, rw hit at e))
  | inr miss ↦
      let later = stable (d ∷ s) more i (predecessor (find_text two_lf (d ∷ s)) i (rw miss at e)) in
      record {
        still_found = rw miss (rw later.still_found refl);
        same_taken = ap (λ (t : Text). c ∷ t) later.same_taken;
        same_left = later.same_left;
      }
]
