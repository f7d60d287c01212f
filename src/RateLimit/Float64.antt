-- ===== src/RateLimit/Float64.antt =====
-- The f64 arithmetic that the sliding window uses, as a parameter: its operations, and facts of
-- IEEE 754 about them. (Rounding is monotone, and whole numbers below 2 ^ 53 are exact.)
use customer_service_chat_sy.Base.{
  ℕ, ◌+◌, ◌-◌, ◌*◌, ◌/◌, ◌^◌, ◌≤◌, ◌<◌, ◌≡◌, ◌↔◌, refl, Bool, true, leb, leb→le, le→leb, arith,
}

pub data I64 : Type 0 where
  pos : ℕ → I64
  negsuc : ℕ → I64  -- `negsuc n` is -(n + 1)

pub record Float64 : Type 1 where
  pub F : Type 0
  pub one : F
  pub of_nat : ℕ → F  -- `as f64` from an unsigned type
  pub of_i64 : I64 → F
  pub add : F → F → F
  pub sub : F → F → F
  pub mul : F → F → F
  pub div : F → F → F
  pub le : F → F → Bool
  pub of_pos : (n : ℕ) → of_i64 (pos n) ≡ of_nat n
  pub le_exact : (a b : ℕ) → a < 2 ^ 53 → b < 2 ^ 53 → (le (of_nat a) (of_nat b) ≡ true) ↔ (a ≤ b)
  pub le_trans : (x y z : F) → le x y ≡ true → le y z ≡ true → le x z ≡ true
  pub add_exact : (a b : ℕ) → a + b < 2 ^ 53 → add (of_nat a) (of_nat b) ≡ of_nat (a + b)
  pub add_mono :
      (a : ℕ) (x y : F)
      → le (of_nat 0) x ≡ true
      → le x y ≡ true
      → le (add (of_nat a) x) (add (of_nat a) y) ≡ true
  pub le_add : (a : ℕ) (x : F) → le (of_nat 0) x ≡ true → le (of_nat a) (add (of_nat a) x) ≡ true
  pub share :
      (part whole : ℕ)
      → 0 < whole
      → part ≤ whole
      → (le (of_nat 0) (sub one (div (of_nat part) (of_nat whole))) ≡ true)
        × (le (sub one (div (of_nat part) (of_nat whole))) one ≡ true)
  pub mul_share :
      (n : ℕ) (x : F)
      → le (of_nat 0) x ≡ true
      → le x one ≡ true
      → (le (of_nat 0) (mul (of_nat n) x) ≡ true) × (le (mul (of_nat n) x) (of_nat n) ≡ true)

abbrev pub whole : I64 → ℕ
whole (pos n) = n
whole (negsuc n) = 0

pub nat_share :
    (part whole : ℕ)
    → 0 < whole
    → part ≤ whole
    → (leb 0 (1 - part / whole) ≡ true) × (leb (1 - part / whole) 1 ≡ true)
nat_share part whole h k = (ground arith, ground arith)

mul_le_self : (n x : ℕ) → x ≤ 1 → n * x ≤ n
mul_le_self n x h = grind arith

pub nat_mul_share :
    (n x : ℕ) → leb 0 x ≡ true → leb x 1 ≡ true → (leb 0 (n * x) ≡ true) × (leb (n * x) n ≡ true)
nat_mul_share n x h k = (ground arith, le→leb (n * x) n (mul_le_self n x (leb→le x 1 k)))

pub leb_iff : (a b : ℕ) → (leb a b ≡ true) ↔ (a ≤ b)
leb_iff a b = (leb→le a b, le→leb a b)

pub nat_le_trans : (x y z : ℕ) → leb x y ≡ true → leb y z ≡ true → leb x z ≡ true
nat_le_trans x y z h k = ground arith

pub nat_add_mono : (a x y : ℕ) → leb 0 x ≡ true → leb x y ≡ true → leb (a + x) (a + y) ≡ true
nat_add_mono a x y _ h = ground arith

pub nat_le_add : (a x : ℕ) → leb 0 x ≡ true → leb a (a + x) ≡ true
nat_le_add a x h = ground arith

-- Whole numbers with their own operations meet the facts, so these can hold together.
abbrev pub naturals : Float64
naturals = record {
  F = ℕ;
  one = 1;
  of_nat = λ n. n;
  of_i64 = whole;
  add = ◌+◌;
  sub = ◌-◌;
  mul = ◌*◌;
  div = ◌/◌;
  le = leb;
  of_pos = λ n. refl;
  le_exact = λ a b _ _. leb_iff a b;
  le_trans = λ x y z h k. nat_le_trans x y z h k;
  add_exact = λ a b _. refl;
  add_mono = nat_add_mono;
  le_add = nat_le_add;
  share = nat_share;
  mul_share = nat_mul_share;
}
