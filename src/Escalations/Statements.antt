-- ===== src/Escalations/Statements.antt =====
-- The statements that the transactions of the escalations share: the helpers of
-- backend/crates/modules/escalations/src/routing.rs, and `assign_in_tx` and `set_escalated_in_tx`
-- of backend/crates/modules/conversations/src/queries.rs for their origin "escalations". `fails`
-- says at which statements the database fails.
pub mod Untouched
use customer_service_chat_sy.Base.{
  ℕ, Bool, true, false, not, ◌&&◌, ◌||◌, ok, err, List, [], ◌∷◌, ◌++◌, map, Option, none, some,
  Text, codes, eqb, ◌==◌, text_eq, ℕ_eq, if◌then◌else◌, length, any, all, find, retain, contains,
  update_where,
}
use customer_service_chat_sy.Tenancy.Roster.{Membership}
use customer_service_chat_sy.Escalations.Rows.{
  EscalationRow, Skill, Conversation, AuditEvent, assignment_changed, OutboxEvent,
  conversation_assignment_changed, notification_requested, notification_resolved, Db, Call,
  reads_skill_names, updates_escalation, reads_conversation, reads_assignee, updates_conversation,
  emits_assignment, sets_escalated, records_assignment, reads_actor, emits_requested,
  emits_resolved, SqlError, violates, row_not_found, protocol, is_active_member,
}
use customer_service_chat_sy.Escalations.Transaction.{
  Tx, pure, throw, gets, modify, ◌>>=◌, ◌>>◌, ignored, attempt,
}
use customer_service_chat_sy.Escalations.Candidates.{Candidate}

abbrev pub set_escalations : List EscalationRow → Db → Db
set_escalations rows db = record db { escalations = rows }

abbrev pub record_event : AuditEvent → Db → Db
record_event event db = record db { audit_events = db.audit_events ++ event ∷ [] }

abbrev pub emit : OutboxEvent → Db → Db
emit event db = record db { outbox_events = db.outbox_events ++ event ∷ [] }

abbrev pub is_conversation : (tenant_id id : ℕ) → Conversation → Bool
is_conversation tenant_id id c = eqb c.tenant_id tenant_id && eqb c.id id

abbrev pub set_assignee : Option ℕ → Conversation → Conversation
set_assignee assignee c = record c { assigned_membership_id = assignee }

abbrev pub set_escalated_at : Option ℕ → Conversation → Conversation
set_escalated_at at_time c = record c { escalated_at = at_time }

abbrev pub update_conversations : (Conversation → Bool) → (Conversation → Conversation) → Db → Db
update_conversations p f db = record db { conversations = update_where p f db.conversations }

-- `skill_names_for_ids_in_tx` of src/model.rs; no statement runs for no ids.
abbrev pub skill_names_for_ids : (tenant_id : ℕ) (ids : List ℕ) → Db → List Text
skill_names_for_ids tenant_id ids db =
    map (λ (s : Skill). s.name)
      (retain (λ (s : Skill). eqb s.tenant_id tenant_id && contains ids s.id) db.skills)

abbrev pub same_assignee : Option ℕ → Option ℕ → Bool
same_assignee none none = true
same_assignee (some a) (some b) = eqb a b
same_assignee _ _ = false

-- Whether the rows to be assigned are of the member's tenant, as their foreign key wants.
abbrev pub references_member : (EscalationRow → Bool) → (membership_id : ℕ) → Db → Bool
references_member p membership_id db =
    all
      (λ (e : EscalationRow).
        not (p e)
        || any (λ (m : Membership). eqb m.tenant_id e.tenant_id && eqb m.id membership_id)
            db.memberships)
      db.escalations

module _ (now : ℕ) where
  abbrev pub set_assigned :
      (routing_reason : Text) (membership_id : ℕ) (matched_ids : List ℕ) (matched_names : List Text)
      → EscalationRow
      → EscalationRow
  set_assigned routing_reason membership_id matched_ids matched_names e = record e {
    status = codes "assigned";
    routing_reason = some routing_reason;
    assigned_membership_id = some membership_id;
    matched_skill_ids = matched_ids;
    matched_skill_names = matched_names;
    assigned_at = some now;
  }

-- An update of escalations that makes the member their assignee.
unfoldable pub update_checked :
    (EscalationRow → Bool)
    → (membership_id : ℕ) → (EscalationRow → EscalationRow)
    → Tx SqlError (Unit {0})
update_checked p membership_id f db =
    if references_member p membership_id db
    then ok (tt, set_escalations (update_where p f db.escalations) db)
    else err (violates (codes "escalations_tenant_id_assigned_membership_id_fkey"))

module _ (fails : Call → Bool) where
  abbrev pub run : Call → (Db → Db) → Tx SqlError (Unit {0})
  run c f = do attempt fails c; modify f

  abbrev pub read : {A : Type 0} → Call → (Db → A) → Tx SqlError A
  read c f = do attempt fails c; gets f

  -- `assign_in_tx` of the conversations, for an assignee and the origin "escalations", whose
  -- notifications the caller sends.
  abbrev pub with_prior :
      (tenant_id conversation_id membership_id actor_user_id : ℕ)
      → Option Conversation
      → Tx SqlError (Unit {0})
  with_prior tenant_id conversation_id membership_id actor_user_id none = throw row_not_found
  with_prior tenant_id conversation_id membership_id actor_user_id (some c) =
      if same_assignee c.assigned_membership_id (some membership_id) then pure tt else do
        active ←
            read reads_assignee
              (λ (db : Db). any (is_active_member tenant_id membership_id) db.memberships)
        if not active then throw protocol else do
          run updates_conversation (
              update_conversations (is_conversation tenant_id conversation_id)
                (set_assignee (some membership_id)))
          run records_assignment (
              record_event (
                assignment_changed actor_user_id tenant_id conversation_id c.assigned_membership_id
                  (some membership_id)))
          run emits_assignment (
              emit (
                conversation_assignment_changed tenant_id conversation_id c.assigned_membership_id
                  (some membership_id) (some actor_user_id) (codes "escalations")))

  unfoldable pub assign :
      (tenant_id conversation_id membership_id actor_user_id : ℕ) → Tx SqlError (Unit {0})
  unfolding ◌>>=◌ attempt
  assign tenant_id conversation_id membership_id actor_user_id = do
    prior ← read reads_conversation (λ (db : Db).
        find (λ (c : Conversation). is_conversation tenant_id conversation_id c && not c.deleted)
          db.conversations)
    with_prior tenant_id conversation_id membership_id actor_user_id prior

  unfoldable pub set_escalated : (tenant_id conversation_id : ℕ) → Option ℕ → Tx SqlError (Unit {0})
  unfolding ◌>>=◌ attempt
  set_escalated tenant_id conversation_id at_time =
      run sets_escalated (
        update_conversations (is_conversation tenant_id conversation_id) (set_escalated_at at_time))

  abbrev pub member_id : Option Membership → Option ℕ
  member_id none = none
  member_id (some m) = some m.id

  unfoldable pub resolve_actor_membership_id :
      (tenant_id actor_user_id : ℕ) → Tx SqlError (Option ℕ)
  unfolding ◌>>=◌ attempt ignored
  resolve_actor_membership_id tenant_id actor_user_id = ignored none (
      read reads_actor (λ (db : Db). member_id (
        find
          (λ (m : Membership).
            eqb m.tenant_id tenant_id
            && (eqb m.user_id actor_user_id && (m.status == codes "active" && not m.deleted)))
          db.memberships)))

  unfoldable pub notify_escalation_queued :
      (tenant_id escalation_id conversation_id : ℕ) → Option ℕ → Tx SqlError (Unit {0})
  unfolding ◌>>=◌ attempt ignored
  notify_escalation_queued tenant_id escalation_id conversation_id actor = ignored tt (
      run emits_requested
        (emit (notification_requested tenant_id escalation_id conversation_id actor none)))

  unfoldable pub notify_escalation_assigned :
      (tenant_id escalation_id conversation_id assignee : ℕ) → Option ℕ → Tx SqlError (Unit {0})
  unfolding ◌>>=◌ attempt ignored
  notify_escalation_assigned tenant_id escalation_id conversation_id assignee actor = do
    ignored tt (
        run emits_requested (
          emit
            (notification_requested tenant_id escalation_id conversation_id actor (some assignee))))
    ignored tt (run emits_resolved (emit (notification_resolved tenant_id escalation_id assignee)))

  unfoldable pub update_assigned :
      (EscalationRow → Bool)
      → (membership_id : ℕ) → (EscalationRow → EscalationRow)
      → Tx SqlError (Unit {0})
  unfolding ◌>>=◌ attempt update_checked
  update_assigned p membership_id f = do
    attempt fails updates_escalation
    update_checked p membership_id f

  abbrev pub matched_names : (tenant_id : ℕ) → Candidate → Tx SqlError (List Text)
  matched_names tenant_id c =
      if not (eqb c.match_count 0) && not (eqb (length c.matched_ids) 0)
      then read reads_skill_names (skill_names_for_ids tenant_id c.matched_ids)
      else pure []
