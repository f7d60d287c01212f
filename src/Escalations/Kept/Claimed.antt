-- ===== src/Escalations/Kept/Claimed.antt =====
-- A claim keeps an invariant.
use customer_service_chat_sy.Base.{ℕ, refl, Bool, List, Option, none, some, eqb, count, arith}
use customer_service_chat_sy.Escalations.Rows.{EscalationRow, Db, Call}
use customer_service_chat_sy.Escalations.Transaction.Preserves.{
  Preserves-bind, Preserves-gets, Preserves-attempt, Preserves-map_err, Preserves-if,
  Preserves-throw,
}
use customer_service_chat_sy.Escalations.Transaction.Ensures.{
  success, failure, if_Outcome, Ensures, Ensures-Preserves, Ensures-then, Ensures-before,
  Ensures-map_err,
}
use customer_service_chat_sy.Escalations.Statements.{
  references_member, update_checked, update_assigned,
}
use customer_service_chat_sy.Escalations.Statements.Untouched.{
  OnRows, PreservesRows, read-Preserves, rows_rules,
}
use customer_service_chat_sy.Escalations.Consistent.{Assigns}
use customer_service_chat_sy.Escalations.Kept.{Invariant}
use customer_service_chat_sy.Escalations.Claim.{
  internal, claim, claim_updated, claimed, unclaimed, or_not_found, is_claimable, set_claimed,
}

set_claimed-Assigns : (now membership_id : ℕ) → Assigns (set_claimed now membership_id)
set_claimed-Assigns now m = record {
  same_id = λ e. refl;
  same_tenant = λ e. refl;
  same_conversation = λ e. refl;
  is_checked = λ e. refl;
}

module _ (Q : List EscalationRow → Type 0) where
  or_not_found-Preserves : (m : Option ℕ) → PreservesRows Q (or_not_found m)
  or_not_found-Preserves none = Preserves-throw _
  or_not_found-Preserves (some m) = Preserves-throw _

  unclaimed-Preserves : (row : Option EscalationRow) → PreservesRows Q (unclaimed row)
  unclaimed-Preserves none = Preserves-throw _
  unclaimed-Preserves (some row) = or_not_found-Preserves row.assigned_membership_id

module _ (Q : List EscalationRow → Type 0) (fails : Call → Bool)
    (now tenant_id escalation_id claimant_membership_id actor_user_id : ℕ) where
  claimed-Preserves :
      (row : Option EscalationRow)
      → PreservesRows Q
          (claimed fails now tenant_id escalation_id claimant_membership_id actor_user_id row)
  claimed-Preserves none = Preserves-throw _
  claimed-Preserves (some row) = search rows_rules depth 20

  pub claim_updated-Preserves :
      (rows_affected : ℕ)
      → PreservesRows Q (
          claim_updated fails now tenant_id escalation_id claimant_membership_id actor_user_id
            rows_affected)
  claim_updated-Preserves n =
      Preserves-if (eqb n 0) _ _
        (λ _.
          Preserves-bind _ _ (Preserves-map_err _ _ (read-Preserves Q fails _ _))
            (unclaimed-Preserves Q))
        (λ _.
          Preserves-bind _ _ (Preserves-map_err _ _ (read-Preserves Q fails _ _)) claimed-Preserves)

module _ (Q : List EscalationRow → Type 0) (Chosen : ℕ → List EscalationRow → Type 0)
    (inv : Invariant Q Chosen) where
  module _ (fails : Call → Bool)
      (now tenant_id escalation_id claimant_membership_id actor_user_id : ℕ) where
    claimable-Ensures :
        Ensures
          (OnRows Q)
          (λ _. OnRows Q)
          (update_assigned fails
            (is_claimable tenant_id escalation_id)
            claimant_membership_id
            (set_claimed now claimant_membership_id))
    unfolding update_assigned update_checked
    claimable-Ensures = Ensures-then _ _ (Preserves-attempt fails _) λ _. record {
      from = λ db o.
          if_Outcome _
            (references_member (is_claimable tenant_id escalation_id) claimant_membership_id db)
            (λ _. success (record {
              rows =
                  inv.claim (is_claimable tenant_id escalation_id) _ db.escalations
                    (set_claimed-Assigns now claimant_membership_id) (λ e h. ground arith) o.rows;
            }))
            (λ _. failure);
    }

    pub claim-Preserves :
        PreservesRows Q
          (claim fails now tenant_id escalation_id claimant_membership_id actor_user_id)
    unfolding claim
    claim-Preserves =
        Preserves-bind _ _
          (Preserves-gets
            (λ (db : Db). count (is_claimable tenant_id escalation_id) db.escalations))
          λ n. Ensures-Preserves (
            Ensures-before _ _ (Ensures-map_err internal _ claimable-Ensures) (λ _.
              claim_updated-Preserves Q fails now tenant_id escalation_id claimant_membership_id
                actor_user_id n))
