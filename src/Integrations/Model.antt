-- ===== src/Integrations/Model.antt =====
-- Statuses and reasons: backend/crates/modules/integrations/src/model.rs, and status.rs.
pub mod Status
use customer_service_chat_sy.Base.{
  Bool, true, false, ◌&&◌, List, ◌∷◌, Option, none, some, Text, codes, text_eq, ◌==◌, if◌then◌else◌,
}

pub data ConnectionStatus : Type 0 where
  not_connected connected error disconnected : ConnectionStatus

abbrev pub event_delivery_accepted : Text
event_delivery_accepted = codes "delivery_accepted"

abbrev pub event_delivery_rejected : Text
event_delivery_rejected = codes "delivery_rejected"

pub data RejectionReason : Type 0 where
  invalid_signature inactive_connection payload_too_large rate_limited : RejectionReason
  malformed_payload : RejectionReason

-- `RejectionReason::as_str`.
abbrev pub reason_text : RejectionReason → Text
reason_text invalid_signature = codes "invalid_signature"
reason_text inactive_connection = codes "inactive_connection"
reason_text payload_too_large = codes "payload_too_large"
reason_text rate_limited = codes "rate_limited"
reason_text malformed_payload = codes "malformed_payload"

-- Do the three latest outcomes, the newest first, all say "failure"?
abbrev pub three_failures : List Text → Bool
three_failures (a ∷ b ∷ c ∷ rest) =
    a == codes "failure" && (b == codes "failure" && c == codes "failure")
three_failures _ = false

unfoldable pub derive_status : Option Bool → List Text → ConnectionStatus
derive_status none recent_outcomes = not_connected
derive_status (some false) recent_outcomes = disconnected
derive_status (some true) recent_outcomes =
    if three_failures recent_outcomes then error else connected
