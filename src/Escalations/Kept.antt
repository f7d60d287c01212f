-- ===== src/Escalations/Kept.antt =====
-- What a property of the table `escalations` has to meet for the routing, the claims and the
-- drainings to keep it. `Chosen` is what holds besides from the choice of an escalation to its update.
pub mod Routed
pub mod Claimed
pub mod Drained
use customer_service_chat_sy.Base.{
  ℕ, ◌≡◌, Bool, true, false, ◌&&◌, List, [], ◌∷◌, ◌++◌, any, update_where,
}
use customer_service_chat_sy.Escalations.Rows.{EscalationRow, has_id, is_queued, is_active_for}
use customer_service_chat_sy.Escalations.Consistent.{Assigns, passes_check}

pub record Invariant (Q : List EscalationRow → Type 0) (Chosen : ℕ → List EscalationRow → Type 0)
    : Type 0 where
  pub weaken : (id : ℕ) (rows : List EscalationRow) → Chosen id rows → Q rows
  pub choose :
      (id : ℕ) (rows : List EscalationRow)
      → any (λ e. has_id id e && is_queued e) rows ≡ true
      → Q rows
      → Chosen id rows
  pub insert :
      (row : EscalationRow) (rows : List EscalationRow)
      → any (has_id row.id) rows ≡ false
      → any (is_active_for row.tenant_id row.conversation_id) rows ≡ false
      → passes_check row ≡ true
      → is_queued row ≡ true
      → Q rows
      → Chosen row.id (rows ++ row ∷ [])
  pub assign :
      (id : ℕ) (f : EscalationRow → EscalationRow) (rows : List EscalationRow)
      → Assigns f
      → Chosen id rows
      → Q (update_where (has_id id) f rows)
  pub claim :
      (p : EscalationRow → Bool) (f : EscalationRow → EscalationRow) (rows : List EscalationRow)
      → Assigns f
      → ((e : EscalationRow) → p e ≡ true → is_queued e ≡ true)
      → Q rows
      → Q (update_where p f rows)
