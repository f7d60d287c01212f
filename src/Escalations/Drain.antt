-- ===== src/Escalations/Drain.antt =====
-- A queued escalation is given to a member who became free: `drain_one_for_membership_in_tx` and
-- `drain_any_in_tx` of backend/crates/modules/escalations/src/routing.rs. The first is also two
-- functions, as it selects the escalation and then updates it by its id, and a transaction that does
-- not take the lock can come between. Of escalations as old as each other the first is taken.
pub mod Oldest
use customer_service_chat_sy.Base.{
  ℕ, Bool, ◌&&◌, List, [], ◌∷◌, Option, none, some, Text, codes, eqb, ltb, text_eq, ℕ_eq,
  if◌then◌else◌, any, find, retain, contains,
}
use customer_service_chat_sy.Escalations.Rows.{
  EscalationRow, AgentSkill, escalation_assigned, Db, Call, takes_lock, selects_candidate,
  selects_matching, selects_oldest, reads_skill_names, reads_escalation, records_assigned, SqlError,
  row_not_found, has_id, is_queued,
}
use customer_service_chat_sy.Escalations.Transaction.{Tx, pure, throw, ◌>>=◌, ◌>>◌, attempt}
use customer_service_chat_sy.Escalations.Candidates.{Candidate, select_candidate}
use customer_service_chat_sy.Escalations.Statements.{
  run, read, record_event, skill_names_for_ids, update_assigned, set_assigned, matched_names,
  assign, set_escalated, resolve_actor_membership_id, notify_escalation_assigned,
}

abbrev pub older_of : EscalationRow → Option EscalationRow → EscalationRow
older_of e none = e
older_of e (some other) = if ltb other.escalated_at e.escalated_at then other else e

unfoldable pub oldest : List EscalationRow → Option EscalationRow
oldest [] = none
oldest (e ∷ rest) = some (older_of e (oldest rest))

abbrev pub is_queued_in : (tenant_id : ℕ) → EscalationRow → Bool
is_queued_in tenant_id e = eqb e.tenant_id tenant_id && is_queued e

-- The member has one of the skills that the escalation requires.
abbrev pub has_required_skill : (membership_id : ℕ) → List AgentSkill → EscalationRow → Bool
has_required_skill membership_id skills e =
    any
      (λ (s : AgentSkill).
        eqb s.membership_id membership_id && contains e.required_skill_ids s.skill_id)
      skills

unfoldable pub matching_entry : (tenant_id membership_id : ℕ) → Db → Option EscalationRow
unfolding oldest contains
matching_entry tenant_id membership_id db = oldest (
    retain
      (λ (e : EscalationRow).
        is_queued_in tenant_id e && has_required_skill membership_id db.agent_skills e)
      db.escalations)

unfoldable pub oldest_entry : (tenant_id : ℕ) → Db → Option EscalationRow
unfolding oldest
oldest_entry tenant_id db = oldest (retain (is_queued_in tenant_id) db.escalations)

module _ (fails : Call → Bool) (now : ℕ) where
  abbrev pub or_oldest : (tenant_id : ℕ) → Option EscalationRow → Tx SqlError (Option EscalationRow)
  or_oldest tenant_id (some e) = pure (some e)
  or_oldest tenant_id none = read fails selects_oldest (oldest_entry tenant_id)

  -- The two queries of `drain_one_for_membership_in_tx`.
  unfoldable pub select_entry : (tenant_id membership_id : ℕ) → Tx SqlError (Option EscalationRow)
  unfolding ◌>>=◌ attempt
  select_entry tenant_id membership_id = do
    found ← read fails selects_matching (matching_entry tenant_id membership_id)
    or_oldest tenant_id found

  abbrev pub required_names : (tenant_id : ℕ) (ids : List ℕ) → Tx SqlError (List Text)
  required_names tenant_id [] = pure []
  required_names tenant_id (id ∷ ids) =
      read fails reads_skill_names (skill_names_for_ids tenant_id (id ∷ ids))

  abbrev pub or_row_not_found : Option EscalationRow → Tx SqlError ℕ
  or_row_not_found none = throw row_not_found
  or_row_not_found (some e) = pure e.conversation_id

  abbrev pub conversation_of : (escalation_id : ℕ) → Tx SqlError ℕ
  conversation_of escalation_id = do
    row ← read fails reads_escalation (λ (db : Db). find (has_id escalation_id) db.escalations)
    or_row_not_found row

  module _ (tenant_id membership_id actor_user_id : ℕ) where
    -- What follows the selection, at the entry as it was selected.
    unfoldable pub apply_entry : EscalationRow → Tx SqlError (Option ℕ)
    unfolding ◌>>=◌ attempt update_assigned
    apply_entry e = do
      names ← required_names tenant_id e.required_skill_ids
      update_assigned fails (has_id e.id) membership_id
          (set_assigned now (codes "queue_auto") membership_id e.required_skill_ids names)
      conversation_id ← conversation_of e.id
      assign fails tenant_id conversation_id membership_id actor_user_id
      set_escalated fails tenant_id conversation_id (some now)
      run fails records_assigned (
          record_event (
            escalation_assigned actor_user_id tenant_id e.id (codes "queue_auto") names 0
              membership_id))
      actor ← resolve_actor_membership_id fails tenant_id actor_user_id
      notify_escalation_assigned fails tenant_id e.id conversation_id membership_id actor
      pure (some e.id)

    abbrev pub apply_found : Option EscalationRow → Tx SqlError (Option ℕ)
    apply_found none = pure none
    apply_found (some e) = apply_entry e

    -- `drain_one_for_membership_in_tx`.
    unfoldable pub drain_one : Tx SqlError (Option ℕ)
    unfolding ◌>>=◌ attempt select_entry apply_entry
    drain_one = do
      attempt fails takes_lock
      entry ← select_entry tenant_id membership_id
      apply_found entry

  module _ (tenant_id actor_user_id : ℕ) where
    abbrev pub give_to : EscalationRow → Candidate → Tx SqlError (Option ℕ)
    give_to e c = do
      names ← matched_names fails tenant_id c
      update_assigned fails (has_id e.id) c.membership_id
          (set_assigned now (codes "queue_auto") c.membership_id c.matched_ids names)
      conversation_id ← conversation_of e.id
      assign fails tenant_id conversation_id c.membership_id actor_user_id
      run fails records_assigned (
          record_event (
            escalation_assigned actor_user_id tenant_id e.id (codes "queue_auto") names c.load_count
              c.membership_id))
      actor ← resolve_actor_membership_id fails tenant_id actor_user_id
      notify_escalation_assigned fails tenant_id e.id conversation_id c.membership_id actor
      pure (some e.id)

    abbrev pub give : EscalationRow → Option Candidate → Tx SqlError (Option ℕ)
    give e none = pure none
    give e (some c) = give_to e c

    abbrev pub give_oldest : (present_ids : List ℕ) → Option EscalationRow → Tx SqlError (Option ℕ)
    give_oldest present_ids none = pure none
    give_oldest present_ids (some e) = do
      candidate ←
          read fails selects_candidate
            (λ (db : Db). select_candidate db tenant_id e.required_skill_ids present_ids)
      give e candidate

    -- `drain_any_in_tx`.
    unfoldable pub drain_any : (present_ids : List ℕ) → Tx SqlError (Option ℕ)
    unfolding ◌>>=◌ attempt update_assigned
    drain_any present_ids = do
      attempt fails takes_lock
      entry ← read fails selects_oldest (oldest_entry tenant_id)
      give_oldest present_ids entry
