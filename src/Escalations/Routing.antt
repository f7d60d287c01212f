-- ===== src/Escalations/Routing.antt =====
-- The routing of a new escalation: `route_new_escalation_in_tx` of
-- backend/crates/modules/escalations/src/routing.rs. `fails` says at which statements the database
-- fails; `now` is the clock of the database and of the service, and the new id an argument.
use customer_service_chat_sy.Base.{
  ℕ, Bool, not, ◌&&◌, ok, err, List, [], ◌∷◌, ◌++◌, Option, none, some, Text, codes, eqb, leb,
  text_eq, ℕ_eq, if◌then◌else◌, length, any,
}
use customer_service_chat_sy.Escalations.Rows.{
  EscalationRow, escalation_created, escalation_assigned, escalation_queued, Db, Call, takes_lock,
  inserts_escalation, selects_candidate, records_created, records_assigned, records_queued,
  SqlError, violates, has_id, is_active_for,
}
use customer_service_chat_sy.Escalations.Transaction.{Tx, pure, ◌>>=◌, ◌>>◌, map_err, attempt}
use customer_service_chat_sy.Escalations.Candidates.{Candidate, select_candidate}
use customer_service_chat_sy.Escalations.Statements.{
  run, read, set_escalations, record_event, is_conversation, update_assigned, set_assigned,
  matched_names, set_escalations, assign, set_escalated, resolve_actor_membership_id,
  notify_escalation_queued, notify_escalation_assigned,
}
use customer_service_chat_sy.Escalations.Views.{Escalation, build_escalation}

pub data RouteOutcome : Type 0 where
  assigned :
      (escalation : Escalation) (assigned_membership_id : ℕ) (matched_skill_names : List Text)
      → RouteOutcome
  queued : (escalation : Escalation) → RouteOutcome

pub data RouteError : Type 0 where
  duplicate : RouteError
  conversation_not_found : RouteError
  invalid_state : RouteError
  internal : SqlError → RouteError

-- The insertion, with the constraints of the table: the key, the length of the reason, the index
-- `escalations_one_active_uniq` and the reference to the conversation.
unfoldable pub insert_checked : EscalationRow → Tx RouteError (Unit {0})
insert_checked row db =
    if not (leb 1 (length row.reason) && leb (length row.reason) 2000)
    then err (internal (violates (codes "escalations_reason_check")))
    else if any (has_id row.id) db.escalations
    then err (internal (violates (codes "escalations_pkey")))
    else if any (is_active_for row.tenant_id row.conversation_id) db.escalations
    then err duplicate
    else if not (any (is_conversation row.tenant_id row.conversation_id) db.conversations)
    then err (internal (violates (codes "escalations_tenant_id_conversation_id_fkey")))
    else ok (tt, set_escalations (db.escalations ++ row ∷ []) db)

module _ (now : ℕ) where
  abbrev pub new_row :
      (tenant_id escalation_id conversation_id : ℕ) (reason : Text) (required_skill_ids : List ℕ)
      (required_skill_names : List Text)
      → EscalationRow
  new_row tenant_id escalation_id conversation_id reason ids names = record {
    id = escalation_id;
    tenant_id = tenant_id;
    conversation_id = conversation_id;
    reason = reason;
    required_skill_ids = ids;
    required_skill_names = names;
    status = codes "queued";
    routing_reason = none;
    matched_skill_ids = [];
    matched_skill_names = [];
    assigned_membership_id = none;
    escalated_at = now;
    assigned_at = none;
    closed_at = none;
  }

abbrev pub reason_for : Candidate → Text
reason_for c = if eqb c.match_count 0 then codes "load_fallback" else codes "skill_match"

-- The assignee is not left out as the actor of his own notification.
abbrev pub notify_actor : Option ℕ → (membership_id : ℕ) → Option ℕ
notify_actor none membership_id = none
notify_actor (some actor) membership_id = if eqb actor membership_id then none else some actor

module _ (fails : Call → Bool) (now : ℕ) where
  unfoldable pub insert_escalation : EscalationRow → Tx RouteError (Unit {0})
  unfolding ◌>>=◌ attempt map_err insert_checked
  insert_escalation row = do map_err internal (attempt fails inserts_escalation); insert_checked row

  module _ (tenant_id escalation_id conversation_id : ℕ) (reason : Text)
      (required_skill_ids : List ℕ) (required_skill_names : List Text) (actor_user_id : ℕ) where
    abbrev pub routed : (routing_reason : Text) → List Text → (membership_id : ℕ) → Escalation
    routed routing_reason names membership_id =
        build_escalation now escalation_id conversation_id reason required_skill_ids
          required_skill_names (some routing_reason) names (some membership_id)

    abbrev pub route_to : Candidate → Tx SqlError RouteOutcome
    route_to c = do
      names ← matched_names fails tenant_id c
      update_assigned fails (has_id escalation_id) c.membership_id
          (set_assigned now (reason_for c) c.membership_id c.matched_ids names)
      assign fails tenant_id conversation_id c.membership_id actor_user_id
      set_escalated fails tenant_id conversation_id (some now)
      run fails records_assigned (
          record_event (
            escalation_assigned actor_user_id tenant_id escalation_id (reason_for c) names
              c.load_count c.membership_id))
      actor ← resolve_actor_membership_id fails tenant_id actor_user_id
      notify_escalation_assigned fails tenant_id escalation_id conversation_id c.membership_id
          (notify_actor actor c.membership_id)
      pure (assigned (routed (reason_for c) names c.membership_id) c.membership_id names)

    abbrev pub leave_queued : Tx SqlError RouteOutcome
    leave_queued = do
      set_escalated fails tenant_id conversation_id (some now)
      run fails records_queued
          (record_event (escalation_queued actor_user_id tenant_id escalation_id))
      actor ← resolve_actor_membership_id fails tenant_id actor_user_id
      notify_escalation_queued fails tenant_id escalation_id conversation_id actor
      pure (
          queued (
            build_escalation now escalation_id conversation_id reason required_skill_ids
              required_skill_names none [] none))

    abbrev pub route_candidate : Option Candidate → Tx SqlError RouteOutcome
    route_candidate none = leave_queued
    route_candidate (some c) = route_to c

    -- `route_new_escalation_in_tx`.
    unfoldable pub route_new_escalation : (present_ids : List ℕ) → Tx RouteError RouteOutcome
    unfolding ◌>>=◌ attempt map_err insert_escalation
    route_new_escalation present_ids = do
      map_err internal (attempt fails takes_lock)
      insert_escalation (
          new_row now tenant_id escalation_id conversation_id reason required_skill_ids
            required_skill_names)
      map_err internal (
          run fails records_created (
            record_event
              (escalation_created actor_user_id tenant_id escalation_id conversation_id reason)))
      candidate ← map_err internal (
          read fails selects_candidate
            (λ (db : Db). select_candidate db tenant_id required_skill_ids present_ids))
      map_err internal (route_candidate candidate)
