-- ===== src/Escalations/Consistent/Closed.antt =====
-- The transaction of the outbox's consumer keeps the table `escalations` consistent.
use customer_service_chat_sy.Base.{
  ℕ, ◌≡◌, refl, Bool, true, false, List, Option, none, some, Text, codes, ◌==◌, text_eq, text_beq→≡,
  update_where, arith,
}
use customer_service_chat_sy.Escalations.Rows.{EscalationRow, Call, is_active_for}
use customer_service_chat_sy.Escalations.Transaction.Preserves.{
  Preserves-bind, Preserves-pure, Preserves-modify, Preserves-if,
}
use customer_service_chat_sy.Escalations.Transaction.Ensures.{
  Ensures, success, failure, if_Outcome, Ensures-Preserves, Ensures-before,
}
use customer_service_chat_sy.Escalations.Statements.{references_member, update_checked}
use customer_service_chat_sy.Escalations.Statements.Untouched.{
  OnRows, PreservesRows, read-Preserves, record-Preserves, rows_rules,
}
use customer_service_chat_sy.Escalations.Consistent.{
  IsConsistent, Assigns, passes_check, closed-IsConsistent, kept-IsConsistent, is_some,
}
use customer_service_chat_sy.Escalations.Consistent.Invariance.{Ready, consistent}
use customer_service_chat_sy.Escalations.Kept.Drained.{drain_any-Preserves}
use customer_service_chat_sy.Escalations.Closing.{
  ConversationEvent, status_changed, reassigned, message_status, set_closed, is_queued_for,
  is_relabelled_for, set_reassigned, set_relabelled, coalesce, closed_events,
  close_active_escalation, reassigned_event, relabel_rows, relabel_assigned, after_queued,
  relabel_reassignment, drained, is_over, process_event,
}

set_reassigned-Assigns : (now membership_id : ℕ) → Assigns (set_reassigned now membership_id)
set_reassigned-Assigns now m = record {
  same_id = λ e. refl;
  same_tenant = λ e. refl;
  same_conversation = λ e. refl;
  is_checked = λ e. refl;
}

coalesce_some : (a b : Option ℕ) → is_some b ≡ true → is_some (coalesce a b) ≡ true
coalesce_some none b h = h
coalesce_some (some a) b h = refl

coalesce_now : (a : Option ℕ) (now : ℕ) → is_some (coalesce a (some now)) ≡ true
coalesce_now none now = refl
coalesce_now (some a) now = refl

assigned_only :
    (status : Text)
    → (status == codes "assigned") ≡ true
    → ((status == codes "queued") ≡ false) × ((status == codes "closed") ≡ false)
assigned_only status h = rw (text_beq→≡ status (codes "assigned") h) (refl, refl)

relabelled-IsConsistent :
    (tenant_id conversation_id now : ℕ) (new_membership_id : Option ℕ) (rows : List EscalationRow)
    → IsConsistent rows
    → IsConsistent (
        update_where
          (is_relabelled_for tenant_id conversation_id)
          (set_relabelled now new_membership_id)
          rows)
relabelled-IsConsistent t v now m rows c =
    kept-IsConsistent (is_relabelled_for t v) (set_relabelled now m) rows (λ e. refl)
      (λ t' v' e. refl) check c
  where
    check :
        (e : EscalationRow)
        → is_relabelled_for t v e ≡ true
        → passes_check e ≡ true
        → passes_check (set_relabelled now m e) ≡ true
    check e k g = ground (
      arith,
      assigned_only e.status,
      coalesce_some m e.assigned_membership_id,
      coalesce_now e.assigned_at now,
    )

module _ (fails : Call → Bool) (now tenant_id conversation_id : ℕ) where
  closed_events-Preserves :
      (cause : Text) (id : Option ℕ)
      → PreservesRows IsConsistent (closed_events fails now tenant_id conversation_id cause id)
  closed_events-Preserves cause none = Preserves-pure tt
  closed_events-Preserves cause (some id) = search rows_rules depth 20

  close-IsConsistent :
      (cause : Text)
      → PreservesRows IsConsistent
          (close_active_escalation fails now tenant_id conversation_id cause)
  unfolding close_active_escalation
  close-IsConsistent cause = Preserves-bind _ _ (read-Preserves _ fails _ _) λ id.
      Preserves-bind _ _
        (Preserves-modify _ (λ db o. record {
          rows =
              closed-IsConsistent (is_active_for tenant_id conversation_id) (set_closed now)
                db.escalations (λ e. refl) (λ e. refl) o.rows;
        }))
        λ _. closed_events-Preserves cause id

  reassigned_event-Preserves :
      (id new_membership_id : Option ℕ)
      → PreservesRows IsConsistent
          (reassigned_event fails now tenant_id conversation_id id new_membership_id)
  reassigned_event-Preserves none none = Preserves-pure tt
  reassigned_event-Preserves none (some m) = Preserves-pure tt
  reassigned_event-Preserves (some id) none = Preserves-pure tt
  reassigned_event-Preserves (some id) (some m) = record-Preserves _ fails _ _

  relabel_rows-Preserves :
      (new_membership_id : Option ℕ)
      → PreservesRows IsConsistent
          (relabel_rows fails now tenant_id conversation_id new_membership_id)
  unfolding update_checked
  relabel_rows-Preserves none = Preserves-modify _ (λ db o. record {
    rows = relabelled-IsConsistent tenant_id conversation_id now none db.escalations o.rows;
  })
  relabel_rows-Preserves (some m) = Ensures-Preserves (record {
    from = λ db o.
        if_Outcome _ (references_member (is_relabelled_for tenant_id conversation_id) m db)
          (λ _. success (record {
            rows =
                relabelled-IsConsistent tenant_id conversation_id now (some m) db.escalations
                  o.rows;
          }))
          (λ _. failure);
  })

  relabel_assigned-Preserves :
      (new_membership_id : Option ℕ)
      → PreservesRows IsConsistent
          (relabel_assigned fails now tenant_id conversation_id new_membership_id)
  unfolding relabel_assigned
  relabel_assigned-Preserves m =
      Preserves-bind _ _ (read-Preserves _ fails _ _)
        λ id. Preserves-bind _ _ (relabel_rows-Preserves m) λ _. reassigned_event-Preserves id m

  after_queued-Preserves :
      (membership_id : ℕ) (id : Option ℕ)
      → PreservesRows IsConsistent
          (after_queued fails now tenant_id conversation_id membership_id id)
  after_queued-Preserves m none = relabel_assigned-Preserves (some m)
  after_queued-Preserves m (some id) = reassigned_event-Preserves (some id) (some m)

  reassigned-Ensures :
      (membership_id : ℕ)
      → Ensures
          (OnRows IsConsistent)
          (λ _. OnRows IsConsistent)
          (update_checked
            (is_queued_for tenant_id conversation_id)
            membership_id
            (set_reassigned now membership_id))
  unfolding update_checked
  reassigned-Ensures m = record {
    from = λ db o.
        if_Outcome _ (references_member (is_queued_for tenant_id conversation_id) m db)
          (λ _. success (record {
            rows =
                consistent.claim (is_queued_for tenant_id conversation_id) _ db.escalations
                  (set_reassigned-Assigns now m) (λ e h. ground arith) o.rows;
          }))
          (λ _. failure);
  }

  relabel-IsConsistent :
      (new_membership_id : Option ℕ)
      → PreservesRows IsConsistent
          (relabel_reassignment fails now tenant_id conversation_id new_membership_id)
  unfolding relabel_reassignment
  relabel-IsConsistent none = relabel_assigned-Preserves none
  relabel-IsConsistent (some m) = Preserves-bind _ _ (read-Preserves _ fails _ _) λ id.
      Ensures-Preserves
        (Ensures-before _ _ (reassigned-Ensures m) (λ _. after_queued-Preserves m id))

  module _ (present_ids : List ℕ) where
    drained-Preserves :
        (b : Bool)
        → PreservesRows IsConsistent (drained fails now tenant_id conversation_id present_ids b)
    drained-Preserves false = Preserves-pure tt
    drained-Preserves true =
        Preserves-bind _ _
          (drain_any-Preserves IsConsistent Ready consistent fails now tenant_id 0 present_ids)
          (λ _. Preserves-pure tt)

    pub process_event-IsConsistent :
        (event : ConversationEvent)
        → PreservesRows IsConsistent
            (process_event fails now tenant_id conversation_id present_ids event)
    unfolding process_event
    process_event-IsConsistent (status_changed prev_status new_status) =
        Preserves-if (is_over fails now tenant_id conversation_id present_ids new_status) _ _
          (λ _. Preserves-bind _ _ (close-IsConsistent new_status) (λ _. drained-Preserves _))
          (λ _. Preserves-pure tt)
    process_event-IsConsistent (reassigned old new) =
        Preserves-bind _ _ (relabel-IsConsistent new) (λ _. drained-Preserves _)
    process_event-IsConsistent message_status = Preserves-pure tt
