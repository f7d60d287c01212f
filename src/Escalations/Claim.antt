-- ===== src/Escalations/Claim.antt =====
-- A member claims a queued escalation: `claim_in_tx` of
-- backend/crates/modules/escalations/src/routing.rs.
use customer_service_chat_sy.Base.{
  ℕ, Bool, ◌&&◌, count, Option, none, some, codes, eqb, text_eq, ℕ_eq, if◌then◌else◌, find,
}
use customer_service_chat_sy.Escalations.Rows.{
  EscalationRow, escalation_claimed, Db, Call, reads_escalation, records_claimed, SqlError,
  row_not_found, has_id, is_queued,
}
use customer_service_chat_sy.Escalations.Transaction.{
  Tx, pure, throw, gets, ◌>>=◌, ◌>>◌, map_err, attempt,
}
use customer_service_chat_sy.Escalations.Statements.{
  run, read, record_event, update_assigned, assign, notify_escalation_assigned,
}
use customer_service_chat_sy.Escalations.Views.{Escalation, row_to_escalation}

pub data ClaimError : Type 0 where
  not_found : ClaimError
  already_claimed : (assigned_membership_id : ℕ) → ClaimError
  internal : SqlError → ClaimError

abbrev pub or_not_found : Option ℕ → Tx ClaimError Escalation
or_not_found none = throw not_found
or_not_found (some membership_id) = throw (already_claimed membership_id)

abbrev pub unclaimed : Option EscalationRow → Tx ClaimError Escalation
unclaimed none = throw not_found
unclaimed (some row) = or_not_found row.assigned_membership_id

abbrev pub is_claimable : (tenant_id escalation_id : ℕ) → EscalationRow → Bool
is_claimable tenant_id escalation_id e =
    has_id escalation_id e && (eqb e.tenant_id tenant_id && is_queued e)

module _ (now : ℕ) where
  abbrev pub set_claimed : (membership_id : ℕ) → EscalationRow → EscalationRow
  set_claimed membership_id e = record e {
    status = codes "assigned";
    routing_reason = some (codes "manual_claim");
    assigned_membership_id = some membership_id;
    assigned_at = some now;
  }

module _ (fails : Call → Bool) (now : ℕ) where
  -- `escalation_row_in_tx` of src/queries.rs.
  abbrev pub escalation_row : (tenant_id escalation_id : ℕ) → Tx SqlError (Option EscalationRow)
  escalation_row tenant_id escalation_id = read fails reads_escalation (λ (db : Db).
      find (λ (e : EscalationRow). eqb e.tenant_id tenant_id && has_id escalation_id e)
        db.escalations)

  module _ (tenant_id escalation_id claimant_membership_id actor_user_id : ℕ) where
    abbrev pub claimed : Option EscalationRow → Tx ClaimError Escalation
    claimed none = throw (internal row_not_found)
    claimed (some row) = do
      map_err internal
          (assign fails tenant_id row.conversation_id claimant_membership_id actor_user_id)
      map_err internal (
          notify_escalation_assigned fails tenant_id escalation_id row.conversation_id
            claimant_membership_id (some claimant_membership_id))
      map_err internal (
          run fails records_claimed
            (record_event (escalation_claimed actor_user_id tenant_id escalation_id)))
      pure (row_to_escalation row)

    abbrev pub claim_updated : (rows_affected : ℕ) → Tx ClaimError Escalation
    claim_updated rows_affected =
        if eqb rows_affected 0
        then map_err internal (escalation_row tenant_id escalation_id) >>= unclaimed
        else map_err internal (escalation_row tenant_id escalation_id) >>= claimed

    -- `claim_in_tx`, which does not take the lock.
    unfoldable pub claim : Tx ClaimError Escalation
    unfolding ◌>>=◌ attempt map_err update_assigned
    claim = do
      rows_affected ←
          gets (λ (db : Db). count (is_claimable tenant_id escalation_id) db.escalations)
      map_err internal (
          update_assigned fails (is_claimable tenant_id escalation_id) claimant_membership_id
            (set_claimed now claimant_membership_id))
      claim_updated rows_affected
