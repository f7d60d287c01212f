-- ===== src/Integrations/Model/Status.antt =====
-- When a connection is shown as failing.
use customer_service_chat_sy.Base.{
  Bool, true, false, ◌≡◌, refl, ◌↔◌, List, [], ◌∷◌, Option, none, some, arith, Text, codes,
  text_beq_iff,
}
use customer_service_chat_sy.Integrations.Model.{error, derive_status}

-- The status is an error exactly when the connection is active and its outcomes begin with three
-- failures: an older success does not matter, a success among the last three does.
pub derive_status-error_iff :
    (is_active : Option Bool) (recent_outcomes : List Text)
    → (derive_status is_active recent_outcomes ≡ error) ↔ (
        (is_active ≡ some true)
        × ((rest : List Text) × (recent_outcomes
              ≡ codes "failure" ∷ codes "failure" ∷ codes "failure" ∷ rest)))
unfolding derive_status
derive_status-error_iff none outcomes =
    (λ h. absurd (ground arith), λ (a, r). absurd (ground arith))
derive_status-error_iff (some false) outcomes =
    (λ h. absurd (ground arith), λ (a, r). absurd (ground arith))
derive_status-error_iff (some true) [] =
    (λ h. absurd (ground arith), λ (a, (rest, e)). absurd (ground arith))
derive_status-error_iff (some true) (a ∷ []) =
    (λ h. absurd (ground arith), λ (x, (rest, e)). absurd (ground arith))
derive_status-error_iff (some true) (a ∷ b ∷ []) =
    (λ h. absurd (ground arith), λ (x, (rest, e)). absurd (ground arith))
derive_status-error_iff (some true) (a ∷ b ∷ c ∷ rest) = (
  λ h. (
    refl,
    (
      rest,
      ground (
        arith,
        text_beq_iff a (codes "failure"),
        text_beq_iff b (codes "failure"),
        text_beq_iff c (codes "failure"),
      ),
    ),
  ),
  λ (x, (tail, e)). ground (
    arith,
    text_beq_iff a (codes "failure"),
    text_beq_iff b (codes "failure"),
    text_beq_iff c (codes "failure"),
  ),
)
