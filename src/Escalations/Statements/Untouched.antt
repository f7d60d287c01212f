-- ===== src/Escalations/Statements/Untouched.antt =====
-- The statements that leave the rows of `escalations` as they are keep what is said of these rows.
use customer_service_chat_sy.Base.{ℕ, Bool, List, Option, none, some}
use customer_service_chat_sy.Escalations.Rows.{
  EscalationRow, Conversation, AuditEvent, OutboxEvent, Db, Call,
}
use customer_service_chat_sy.Escalations.Transaction.{Tx}
use customer_service_chat_sy.Escalations.Transaction.Preserves.{
  Preserves, Preserves-pure, Preserves-throw, Preserves-gets, Preserves-if, Preserves-bind,
  Preserves-modify, Preserves-ignored, Preserves-attempt, preserving,
}
use customer_service_chat_sy.Escalations.Candidates.{Candidate}
use customer_service_chat_sy.Escalations.Statements.{
  run, read, update_conversations, record_event, emit, with_prior, assign, set_escalated,
  resolve_actor_membership_id, notify_escalation_queued, notify_escalation_assigned, matched_names,
}

-- What is said of the rows.
pub record OnRows (Q : List EscalationRow → Type 0) (db : Db) : Type 0 where
  pub rows : Q db.escalations

abbrev pub PreservesRows : (List EscalationRow → Type 0) → {E A : Type 0} → Tx E A → Type 0
PreservesRows Q m = Preserves (OnRows Q) m

module _ (Q : List EscalationRow → Type 0) (fails : Call → Bool) where
  pub run-Preserves :
      (c : Call) (f : Db → Db)
      → ((db : Db) → Q db.escalations → Q (f db).escalations)
      → PreservesRows Q (run fails c f)
  run-Preserves c f h =
      Preserves-bind _ _ (Preserves-attempt fails c)
        (λ _. Preserves-modify f (λ db o. record { rows = h db o.rows }))

  pub read-Preserves : {A : Type 0} (c : Call) (f : Db → A) → PreservesRows Q (read fails c f)
  read-Preserves c f = Preserves-bind _ _ (Preserves-attempt fails c) (λ _. Preserves-gets f)

  pub update-Preserves :
      (c : Call) (p : Conversation → Bool) (f : Conversation → Conversation)
      → PreservesRows Q (run fails c (update_conversations p f))
  update-Preserves c p f = run-Preserves c (update_conversations p f) (λ db h. h)

  pub record-Preserves :
      (c : Call) (event : AuditEvent) → PreservesRows Q (run fails c (record_event event))
  record-Preserves c event = run-Preserves c (record_event event) (λ db h. h)

  pub emit-Preserves : (c : Call) (event : OutboxEvent) → PreservesRows Q (run fails c (emit event))
  emit-Preserves c event = run-Preserves c (emit event) (λ db h. h)

  with_prior-Preserves :
      (tenant_id conversation_id membership_id actor_user_id : ℕ) (prior : Option Conversation)
      → PreservesRows Q
          (with_prior fails tenant_id conversation_id membership_id actor_user_id prior)
  with_prior-Preserves t c m a none = Preserves-throw _
  with_prior-Preserves t c m a (some prior) =
      search (preserving, read-Preserves, update-Preserves, record-Preserves, emit-Preserves) depth
        20

  pub assign-Preserves :
      (tenant_id conversation_id membership_id actor_user_id : ℕ)
      → PreservesRows Q (assign fails tenant_id conversation_id membership_id actor_user_id)
  unfolding assign
  assign-Preserves t c m a = Preserves-bind _ _ (read-Preserves _ _) (with_prior-Preserves t c m a)

  pub set_escalated-Preserves :
      (tenant_id conversation_id : ℕ) (at_time : Option ℕ)
      → PreservesRows Q (set_escalated fails tenant_id conversation_id at_time)
  unfolding set_escalated
  set_escalated-Preserves t c at_time = run-Preserves _ _ (λ db h. h)

  pub resolve_actor-Preserves :
      (tenant_id actor_user_id : ℕ)
      → PreservesRows Q (resolve_actor_membership_id fails tenant_id actor_user_id)
  unfolding resolve_actor_membership_id
  resolve_actor-Preserves t a = Preserves-ignored none _ (read-Preserves _ _)

  pub notify_queued-Preserves :
      (tenant_id escalation_id conversation_id : ℕ) (actor : Option ℕ)
      → PreservesRows Q
          (notify_escalation_queued fails tenant_id escalation_id conversation_id actor)
  unfolding notify_escalation_queued
  notify_queued-Preserves t e c actor = Preserves-ignored tt _ (run-Preserves _ _ (λ db h. h))

  pub notify_assigned-Preserves :
      (tenant_id escalation_id conversation_id assignee : ℕ) (actor : Option ℕ)
      → PreservesRows Q
          (notify_escalation_assigned fails tenant_id escalation_id conversation_id assignee actor)
  unfolding notify_escalation_assigned
  notify_assigned-Preserves t e c assignee actor =
      Preserves-bind _ _ (Preserves-ignored tt _ (run-Preserves _ _ (λ db h. h)))
        λ _. Preserves-ignored tt _ (run-Preserves _ _ (λ db h. h))

  pub matched_names-Preserves :
      (tenant_id : ℕ) (c : Candidate) → PreservesRows Q (matched_names fails tenant_id c)
  matched_names-Preserves t c = search (preserving, read-Preserves)

pub ruleset rows_rules = (
  preserving, read-Preserves, update-Preserves, record-Preserves, emit-Preserves, assign-Preserves,
  set_escalated-Preserves, resolve_actor-Preserves, notify_queued-Preserves,
  notify_assigned-Preserves, matched_names-Preserves,
)
