-- ===== src/Escalations/Closing.antt =====
-- What the outbox tells the escalations: `close_active_escalation_in_tx`, `relabel_reassignment_in_tx`
-- and the transaction of `process_escalation_outbox_once` in
-- backend/crates/modules/escalations/src/events.rs, less the broadcasts and the claim of the event.
-- `RETURNING id` gives the first of the rows updated.
use customer_service_chat_sy.Base.{
  ℕ, Bool, true, false, not, ◌&&◌, ◌||◌, List, [], Option, none, some, Text, codes, eqb, ◌==◌,
  text_eq, ℕ_eq, if◌then◌else◌, find, update_where,
}
use customer_service_chat_sy.Escalations.Rows.{
  EscalationRow, escalation_assigned, escalation_closed, Db, Call, updates_escalation,
  relabels_escalation, records_closed, records_assigned, SqlError, is_queued, is_assigned,
  is_active_for,
}
use customer_service_chat_sy.Escalations.Transaction.{Tx, pure, modify, ◌>>=◌, ◌>>◌, attempt}
use customer_service_chat_sy.Escalations.Statements.{
  run, read, set_escalations, record_event, same_assignee, update_checked, set_escalations,
  set_escalated,
}
use customer_service_chat_sy.Escalations.Drain.{drain_any}

-- The payload of an event, with the statuses as its text gives them.
pub data ConversationEvent : Type 0 where
  status_changed : (prev_status new_status : Text) → ConversationEvent
  reassigned : (old_membership_id new_membership_id : Option ℕ) → ConversationEvent
  message_status : ConversationEvent

abbrev pub set_closed : (now : ℕ) → EscalationRow → EscalationRow
set_closed now e = record e { status = codes "closed"; closed_at = some now }

abbrev pub row_id : Option EscalationRow → Option ℕ
row_id none = none
row_id (some e) = some e.id

abbrev pub is_queued_for : (tenant_id conversation_id : ℕ) → EscalationRow → Bool
is_queued_for tenant_id conversation_id e =
    eqb e.tenant_id tenant_id && (eqb e.conversation_id conversation_id && is_queued e)

abbrev pub is_manual : Option Text → Bool
is_manual none = false
is_manual (some reason) = reason == codes "manual_reassignment"

abbrev pub is_relabelled_for : (tenant_id conversation_id : ℕ) → EscalationRow → Bool
is_relabelled_for tenant_id conversation_id e =
    eqb e.tenant_id tenant_id
    && (eqb e.conversation_id conversation_id
        && (is_assigned e && not (is_manual e.routing_reason)))

-- `COALESCE`.
abbrev pub coalesce : Option ℕ → Option ℕ → Option ℕ
coalesce none b = b
coalesce (some a) b = some a

abbrev pub set_reassigned : (now membership_id : ℕ) → EscalationRow → EscalationRow
set_reassigned now membership_id e = record e {
  status = codes "assigned";
  routing_reason = some (codes "manual_reassignment");
  assigned_membership_id = some membership_id;
  assigned_at = some now;
}

abbrev pub set_relabelled : (now : ℕ) → Option ℕ → EscalationRow → EscalationRow
set_relabelled now new_membership_id e = record e {
  routing_reason = some (codes "manual_reassignment");
  assigned_membership_id = coalesce new_membership_id e.assigned_membership_id;
  assigned_at = coalesce e.assigned_at (some now);
}

module _ (fails : Call → Bool) (now tenant_id conversation_id : ℕ) where
  abbrev pub closed_events : (cause : Text) → Option ℕ → Tx SqlError (Unit {0})
  closed_events cause none = pure tt
  closed_events cause (some id) = do
    set_escalated fails tenant_id conversation_id none
    run fails records_closed (record_event (escalation_closed tenant_id id cause))

  unfoldable pub close_active_escalation : (cause : Text) → Tx SqlError (Unit {0})
  unfolding ◌>>=◌ attempt
  close_active_escalation cause = do
    id ←
        read fails updates_escalation
          (λ (db : Db). row_id (find (is_active_for tenant_id conversation_id) db.escalations))
    modify (λ (db : Db).
        set_escalations
          (update_where (is_active_for tenant_id conversation_id) (set_closed now) db.escalations)
          db)
    closed_events cause id

  abbrev pub reassigned_event : Option ℕ → Option ℕ → Tx SqlError (Unit {0})
  reassigned_event (some id) (some membership_id) = run fails records_assigned (
      record_event
        (escalation_assigned 0 tenant_id id (codes "manual_reassignment") [] 0 membership_id))
  reassigned_event _ _ = pure tt

  abbrev pub relabel_rows : (new_membership_id : Option ℕ) → Tx SqlError (Unit {0})
  relabel_rows none = modify (λ (db : Db).
      set_escalations
        (update_where (is_relabelled_for tenant_id conversation_id) (set_relabelled now none)
          db.escalations)
        db)
  relabel_rows (some membership_id) =
      update_checked (is_relabelled_for tenant_id conversation_id) membership_id
        (set_relabelled now (some membership_id))

  -- Case 2 of the source: an escalation that is assigned, and not by hand.
  unfoldable pub relabel_assigned : (new_membership_id : Option ℕ) → Tx SqlError (Unit {0})
  unfolding ◌>>=◌ attempt
  relabel_assigned new_membership_id = do
    id ←
        read fails relabels_escalation
          (λ (db : Db). row_id (find (is_relabelled_for tenant_id conversation_id) db.escalations))
    relabel_rows new_membership_id
    reassigned_event id new_membership_id

  abbrev pub after_queued : (membership_id : ℕ) → Option ℕ → Tx SqlError (Unit {0})
  after_queued membership_id none = relabel_assigned (some membership_id)
  after_queued membership_id (some id) = reassigned_event (some id) (some membership_id)

  -- Case 1, an escalation that is queued.
  abbrev pub reassign : (new_membership_id : Option ℕ) → Tx SqlError (Unit {0})
  reassign none = relabel_assigned none
  reassign (some membership_id) = do
    id ←
        read fails updates_escalation
          (λ (db : Db). row_id (find (is_queued_for tenant_id conversation_id) db.escalations))
    update_checked (is_queued_for tenant_id conversation_id) membership_id
        (set_reassigned now membership_id)
    after_queued membership_id id

  -- `relabel_reassignment_in_tx`.
  unfoldable pub relabel_reassignment : (new_membership_id : Option ℕ) → Tx SqlError (Unit {0})
  unfolding ◌>>=◌ attempt relabel_assigned update_checked
  relabel_reassignment new_membership_id = reassign new_membership_id

  module _ (present_ids : List ℕ) where
    abbrev pub drained : Bool → Tx SqlError (Unit {0})
    drained false = pure tt
    drained true = drain_any fails now tenant_id 0 present_ids >> pure tt

    abbrev pub is_over : Text → Bool
    is_over status = status == codes "resolved" || status == codes "closed"

    abbrev pub is_ongoing : Text → Bool
    is_ongoing status = status == codes "open" || status == codes "pending"

    abbrev pub is_released : Option ℕ → Option ℕ → Bool
    is_released none new_membership_id = false
    is_released (some old) new_membership_id = not (same_assignee (some old) new_membership_id)

    -- The transaction of `process_escalation_outbox_once`.
    unfoldable pub process_event : ConversationEvent → Tx SqlError (Unit {0})
    unfolding ◌>>=◌ close_active_escalation relabel_reassignment drain_any
    process_event (status_changed prev_status new_status) =
        if is_over new_status
        then close_active_escalation new_status >> drained (is_ongoing prev_status)
        else pure tt
    process_event (reassigned old_membership_id new_membership_id) =
        relabel_reassignment new_membership_id
        >> drained (is_released old_membership_id new_membership_id)
    process_event message_status = pure tt
