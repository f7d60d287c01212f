-- ===== src/Ai/Prompt/Slices.antt =====
-- Slices of a text at the UTF-8 boundaries of its parts.
use customer_service_chat_sy.Base.{
  ℕ, ◌+◌, ◌-◌, ◌<◌, true, false, ◌≡◌, refl, ap, [], ◌∷◌, ◌++◌, some, Text, eqb, leb, text_eq, arith,
}
use customer_service_chat_sy.Ai.Prompt.{utf8_len, drop_bytes, take_bytes, slice}

-- The UTF-8 bytes of a text.
abbrev pub bytes : Text → ℕ
bytes [] = 0
bytes (c ∷ s) = utf8_len c + bytes s

pub append_assoc : (a b c : Text) → (a ++ b) ++ c ≡ a ++ (b ++ c)
append_assoc [] b c = refl
append_assoc (x ∷ a) b c = ap (λ (s : Text). x ∷ s) (append_assoc a b c)

pub append-nil : (a : Text) → a ++ [] ≡ a
append-nil [] = refl
append-nil (x ∷ a) = ap (λ (s : Text). x ∷ s) (append-nil a)

pub bytes-append : (a b : Text) → bytes (a ++ b) ≡ bytes a + bytes b
bytes-append [] b = omega arith
bytes-append (c ∷ a) b = omega (arith, bytes-append a b)

utf8_len_pos : (c : ℕ) → 0 < utf8_len c
utf8_len_pos c = ground arith

-- A byte count that begins with a whole character.
past : (c m : ℕ) → utf8_len c + m - utf8_len c ≡ m
past c m = omega arith

not_over : (c m : ℕ) → eqb (utf8_len c + m) 0 ≡ false
not_over c m = ground (arith, utf8_len_pos c)

fits : (c m : ℕ) → leb (utf8_len c) (utf8_len c + m) ≡ true
fits c m = ground arith

pub drop_bytes-append : (a b : Text) → drop_bytes (bytes a) (a ++ b) ≡ some b
unfolding drop_bytes
drop_bytes-append [] [] = refl
drop_bytes-append [] (c ∷ b) = refl
drop_bytes-append (c ∷ a) b =
    rw (not_over c (bytes a))
      (rw (fits c (bytes a)) (rw (past c (bytes a)) (drop_bytes-append a b)))

pub take_bytes-append : (a b : Text) → take_bytes (bytes a) (a ++ b) ≡ some a
unfolding take_bytes
take_bytes-append [] [] = refl
take_bytes-append [] (c ∷ b) = refl
take_bytes-append (c ∷ a) b =
    rw (not_over c (bytes a))
      (rw (fits c (bytes a)) (rw (past c (bytes a)) (rw (take_bytes-append a b) refl)))

-- A slice between two of three parts gives the part between.
pub slice-middle : (a b c : Text) → slice (a ++ (b ++ c)) (bytes a) (bytes a + bytes b) ≡ some b
unfolding slice
slice-middle a b c =
    let in_order : leb (bytes a) (bytes a + bytes b) ≡ true = ground arith in
    let between : bytes a + bytes b - bytes a ≡ bytes b = omega arith in
    rw in_order (rw (drop_bytes-append a (b ++ c)) (rw between (take_bytes-append b c)))
