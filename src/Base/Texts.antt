-- ===== src/Base/Texts.antt =====
-- Text as the list of its code points, so that it can be taken apart and compared in proofs.
use Prim.Native.Nat.{ℕ}
use Prim.Native.Char.{code}
use Prim.Native.String.{String}
use mathlib.Core.Path.{◌≡◌, refl}
use mathlib.Core.Logic.{◌↔◌}
use mathlib.Core.Bool.{Bool, true, false, ◌&&◌}
use mathlib.Core.List.{List, [], ◌∷◌, ◌++◌}
use native.Mathlib.Omega.{arith}
use customer_service_chat_sy.Base.Tests.{eqb, Eq}

abbrev pub Text : Type 0
Text = List ℕ

-- The text of a literal.
abbrev pub codes : String → Text
codes String.[] = []
codes (String.◌∷◌ first rest) = code first ∷ codes rest

abbrev pub text_beq : Text → Text → Bool
text_beq [] [] = true
text_beq (a ∷ s) (b ∷ t) = eqb a b && text_beq s t
text_beq _ _ = false

pub text_beq→≡ : (s t : Text) → text_beq s t ≡ true → s ≡ t
text_beq→≡ [] [] h = refl
text_beq→≡ (a ∷ s) (b ∷ t) h = ground (arith, text_beq→≡ s t)
text_beq→≡ [] (b ∷ t) h = ground arith
text_beq→≡ (a ∷ s) [] h = ground arith

text_beq_refl : (s : Text) → text_beq s s ≡ true
text_beq_refl [] = refl
text_beq_refl (a ∷ s) = ground (arith, text_beq_refl s)

≡→text_beq : (s t : Text) → s ≡ t → text_beq s t ≡ true
≡→text_beq s t e = rw (← e) (text_beq_refl s)

pub text_beq_iff : (s t : Text) → (text_beq s t ≡ true) ↔ (s ≡ t)
text_beq_iff s t = (text_beq→≡ s t, ≡→text_beq s t)

instance abbrev pub text_eq : Eq Text
text_eq = record { equal = text_beq; equal_iff = text_beq_iff }

-- `str::starts_with`.
abbrev pub starts_with : Text → Text → Bool
starts_with s [] = true
starts_with [] (b ∷ t) = false
starts_with (a ∷ s) (b ∷ t) = eqb a b && starts_with s t

pub starts_with-append : (s t : Text) → starts_with (s ++ t) s ≡ true
starts_with-append [] t = ground arith
starts_with-append (a ∷ s) t = ground (arith, starts_with-append s t)
