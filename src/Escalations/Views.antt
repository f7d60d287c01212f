-- ===== src/Escalations/Views.antt =====
-- What the API shows of an escalation: backend/crates/modules/escalations/src/model.rs,
-- `build_escalation` of src/routing.rs and `row_to_escalation` of src/queries.rs. The nil UUID is 0.
use customer_service_chat_sy.Base.{
  ℕ, List, [], ◌∷◌, Option, none, some, Text, codes, ◌==◌, text_eq, if◌then◌else◌,
}
use customer_service_chat_sy.Escalations.Rows.{EscalationRow}

pub data RoutingReason : Type 0 where
  skill_match : RoutingReason
  load_fallback : RoutingReason
  manual_claim : RoutingReason
  queue_auto : RoutingReason
  manual_reassignment : RoutingReason

pub record RequiredSkillRef : Type 0 where
  pub id : Option ℕ
  pub name : Text

pub record RoutingInfo : Type 0 where
  pub reason : RoutingReason
  pub matched_skills : List Text
  pub assigned_membership_id : ℕ
  pub assigned_at : ℕ

pub data EscalationStatus : Type 0 where
  queued : EscalationStatus
  assigned : EscalationStatus
  closed : EscalationStatus

pub record Escalation : Type 0 where
  pub id : ℕ
  pub conversation_id : ℕ
  pub reason : Text
  pub required_skills : List RequiredSkillRef
  pub status : EscalationStatus
  pub routing : Option RoutingInfo
  pub escalated_at : ℕ
  pub closed_at : Option ℕ

-- The ids with the names at their places; empty names follow where the names end.
abbrev pub zip_names : List ℕ → List Text → List RequiredSkillRef
zip_names [] names = []
zip_names (id ∷ ids) [] = (record { id = some id; name = [] }) ∷ zip_names ids []
zip_names (id ∷ ids) (name ∷ names) = (record { id = some id; name = name }) ∷ zip_names ids names

-- The reason of a text, as both functions read it.
unfoldable pub reason_of : Text → Option RoutingReason
reason_of text =
    if text == codes "skill_match"
    then some skill_match
    else if text == codes "load_fallback"
    then some load_fallback
    else if text == codes "manual_claim"
    then some manual_claim
    else if text == codes "queue_auto"
    then some queue_auto
    else if text == codes "manual_reassignment"
    then some manual_reassignment
    else none

-- `serde_json::from_value` of a status, or `Queued`.
unfoldable pub status_of : Text → EscalationStatus
status_of text =
    if text == codes "assigned" then assigned else if text == codes "closed" then closed else queued

abbrev pub or_nil : Option ℕ → ℕ
or_nil none = 0
or_nil (some id) = id

abbrev pub or_fallback : Option RoutingReason → RoutingReason
or_fallback none = load_fallback
or_fallback (some reason) = reason

abbrev pub routing_built :
    Option Text → (matched_skill_names : List Text) → Option ℕ → (now : ℕ) → Option RoutingInfo
routing_built none matched assignee now = none
routing_built (some text) matched assignee now = some (record {
  reason = or_fallback (reason_of text);
  matched_skills = matched;
  assigned_membership_id = or_nil assignee;
  assigned_at = now;
})

abbrev pub status_built : Option Text → EscalationStatus
status_built none = queued
status_built (some text) = assigned

unfoldable pub build_escalation :
    (now escalation_id conversation_id : ℕ)
    → (reason : Text) → (required_skill_ids : List ℕ) → (required_skill_names : List Text)
    → (routing_reason : Option Text) → (matched_skill_names : List Text)
    → (assigned_membership_id : Option ℕ) → Escalation
unfolding reason_of
build_escalation now escalation_id conversation_id reason ids names routing_reason matched
      assignee =
    record {
      id = escalation_id;
      conversation_id = conversation_id;
      reason = reason;
      required_skills = zip_names ids names;
      status = status_built routing_reason;
      routing = routing_built routing_reason matched assignee now;
      escalated_at = now;
      closed_at = none;
    }

abbrev pub or_time : Option ℕ → ℕ → ℕ
or_time none t = t
or_time (some time) t = time

abbrev pub info_of : EscalationRow → Option RoutingReason → Option RoutingInfo
info_of row none = none
info_of row (some reason) = some (record {
  reason = reason;
  matched_skills = row.matched_skill_names;
  assigned_membership_id = or_nil row.assigned_membership_id;
  assigned_at = or_time row.assigned_at row.escalated_at;
})

abbrev pub routing_of : EscalationRow → Option Text → Option RoutingInfo
routing_of row none = none
routing_of row (some text) = info_of row (reason_of text)

unfoldable pub row_to_escalation : EscalationRow → Escalation
unfolding reason_of status_of
row_to_escalation row = record {
  id = row.id;
  conversation_id = row.conversation_id;
  reason = row.reason;
  required_skills = zip_names row.required_skill_ids row.required_skill_names;
  status = status_of row.status;
  routing = routing_of row row.routing_reason;
  escalated_at = row.escalated_at;
  closed_at = row.closed_at;
}
