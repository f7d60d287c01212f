-- ===== src/Escalations/Kept/Drained.antt =====
-- The drainings keep an invariant.
use customer_service_chat_sy.Base.{
  ℕ, ◌≡◌, Bool, true, ◌&&◌, List, [], ◌∷◌, Option, none, some, text_eq, any, retain, arith,
  Bool-cases, inl, inr,
}
use customer_service_chat_sy.Escalations.Rows.{EscalationRow, Db, Call, has_id, is_queued}
use customer_service_chat_sy.Escalations.Transaction.Preserves.{
  Preserves-bind, Preserves-attempt, Preserves-throw, Preserves-pure,
}
use customer_service_chat_sy.Escalations.Transaction.Ensures.{
  Ensures, Ensures-Preserves, Ensures-bind, Ensures-then, Ensures-before, Ensures-gets,
  Ensures-pure, Ensures-weak,
}
use customer_service_chat_sy.Escalations.Statements.Untouched.{
  OnRows, PreservesRows, read-Preserves, rows_rules,
}
use customer_service_chat_sy.Escalations.Kept.{Invariant}
use customer_service_chat_sy.Escalations.Kept.Routed.{update_assigned-Ensures, set_assigned-Assigns}
use customer_service_chat_sy.Escalations.Candidates.{Candidate}
use customer_service_chat_sy.Escalations.Drain.{
  oldest, older_of, matching_entry, oldest_entry, or_oldest, select_entry, required_names,
  or_row_not_found, conversation_of, apply_entry, apply_found, drain_one, give, give_oldest,
  drain_any,
}

-- A row of the table with the id of the one selected is queued.
abbrev Listed : List EscalationRow → Option EscalationRow → Type 0
Listed rows none = Unit
Listed rows (some r) = any (λ e. has_id r.id e && is_queued e) rows ≡ true

Listed-later :
    (x : EscalationRow) (rows : List EscalationRow) (r : Option EscalationRow)
    → Listed rows r
    → Listed (x ∷ rows) r
Listed-later x rows none h = tt
Listed-later x rows (some r) h = ground arith

Listed-older :
    (x : EscalationRow) (rows : List EscalationRow) (r : Option EscalationRow)
    → is_queued x ≡ true
    → Listed rows r
    → Listed (x ∷ rows) (some (older_of x r))
Listed-older x rows none q h = ground arith
Listed-older x rows (some r) q h = ground arith

oldest-Listed :
    (p : EscalationRow → Bool) (rows : List EscalationRow)
    → ((e : EscalationRow) → p e ≡ true → is_queued e ≡ true)
    → Listed rows (oldest (retain p rows))
unfolding oldest
oldest-Listed p [] h = tt
oldest-Listed p (x ∷ rows) h = elim (Bool-cases (p x)) [
  | inl fits ↦ rw fits (Listed-older x rows _ (h x fits) (oldest-Listed p rows h))
  | inr other ↦ rw other (Listed-later x rows _ (oldest-Listed p rows h))
]

module _ (fails : Call → Bool) (now : ℕ) where
  pub required_names-Preserves :
      (Q : List EscalationRow → Type 0) (tenant_id : ℕ) (ids : List ℕ)
      → PreservesRows Q (required_names fails now tenant_id ids)
  required_names-Preserves Q t [] = Preserves-pure []
  required_names-Preserves Q t (id ∷ ids) = read-Preserves Q fails _ _

  pub conversation_of-Preserves :
      (Q : List EscalationRow → Type 0) (escalation_id : ℕ)
      → PreservesRows Q (conversation_of fails now escalation_id)
  conversation_of-Preserves Q id = Preserves-bind _ _ (read-Preserves Q fails _ _) row_found
    where
      row_found : (e : Option EscalationRow) → PreservesRows Q (or_row_not_found fails now e)
      row_found none = Preserves-throw _
      row_found (some e) = Preserves-pure _

module _ (Q : List EscalationRow → Type 0) (Chosen : ℕ → List EscalationRow → Type 0)
    (inv : Invariant Q Chosen) where
  -- What holds of the table once an entry is selected.
  abbrev pub Selected : Option EscalationRow → List EscalationRow → Type 0
  Selected none rows = Q rows
  Selected (some e) rows = Chosen e.id rows

  selected :
      (entry : Option EscalationRow) (rows : List EscalationRow)
      → Q rows
      → Listed rows entry
      → Selected entry rows
  selected none rows c h = c
  selected (some e) rows c h = inv.choose e.id rows h c

  matching-Selected :
      (tenant_id membership_id : ℕ) (db : Db)
      → Q db.escalations
      → Selected (matching_entry tenant_id membership_id db) db.escalations
  unfolding matching_entry
  matching-Selected t m db c =
      selected _ db.escalations c (oldest-Listed _ db.escalations (λ e h. ground arith))

  oldest-Selected :
      (tenant_id : ℕ) (db : Db)
      → Q db.escalations
      → Selected (oldest_entry tenant_id db) db.escalations
  unfolding oldest_entry
  oldest-Selected t db c =
      selected _ db.escalations c (oldest-Listed _ db.escalations (λ e h. ground arith))

  module _ (fails : Call → Bool) (now tenant_id membership_id actor_user_id : ℕ) where
    or_oldest-Ensures :
        (found : Option EscalationRow)
        → Ensures
            (OnRows (Selected found))
            (λ entry. OnRows (Selected entry))
            (or_oldest fails now tenant_id found)
    or_oldest-Ensures none =
        Ensures-then _ _ (Preserves-attempt fails _)
          (λ _. Ensures-gets _ (λ db o. record { rows = oldest-Selected tenant_id db o.rows }))
    or_oldest-Ensures (some e) = Ensures-pure _ (λ db o. o)

    pub select_entry-Ensures :
        Ensures
          (OnRows Q)
          (λ entry. OnRows (Selected entry))
          (select_entry fails now tenant_id membership_id)
    unfolding select_entry
    select_entry-Ensures =
        Ensures-bind _ _
          (Ensures-then _ _ (Preserves-attempt fails _) (λ _.
            Ensures-gets _
              (λ db o. record { rows = matching-Selected tenant_id membership_id db o.rows })))
          or_oldest-Ensures

    apply_entry-Ensures :
        (e : EscalationRow)
        → Ensures
            (OnRows (Chosen e.id))
            (λ _. OnRows Q)
            (apply_entry fails now tenant_id membership_id actor_user_id e)
    unfolding apply_entry
    apply_entry-Ensures e =
        Ensures-then _ _ (required_names-Preserves fails now _ tenant_id e.required_skill_ids)
          λ names.
            Ensures-before _ _
              (update_assigned-Ensures Q Chosen inv fails e.id membership_id _
                (set_assigned-Assigns now _ membership_id e.required_skill_ids names))
              λ _.
                Preserves-bind _ _ (conversation_of-Preserves fails now Q e.id)
                  λ c. search rows_rules depth 20

    apply_found-Ensures :
        (found : Option EscalationRow)
        → Ensures
            (OnRows (Selected found))
            (λ _. OnRows Q)
            (apply_found fails now tenant_id membership_id actor_user_id found)
    apply_found-Ensures none = Ensures-pure _ (λ db o. record { rows = o.rows })
    apply_found-Ensures (some e) = apply_entry-Ensures e

    pub drain_one-Preserves :
        PreservesRows Q (drain_one fails now tenant_id membership_id actor_user_id)
    unfolding drain_one
    drain_one-Preserves = Ensures-Preserves (
        Ensures-then _ _ (Preserves-attempt fails _)
          (λ _. Ensures-bind _ _ select_entry-Ensures apply_found-Ensures))

  module _ (fails : Call → Bool) (now tenant_id actor_user_id : ℕ) where
    give-Ensures :
        (e : EscalationRow) (c : Option Candidate)
        → Ensures
            (OnRows (Chosen e.id))
            (λ _. OnRows Q)
            (give fails now tenant_id actor_user_id e c)
    give-Ensures e none =
        Ensures-weak (Preserves-pure _)
          (λ db o. record { rows = inv.weaken e.id db.escalations o.rows })
    give-Ensures e (some c) = Ensures-then _ _ (search rows_rules depth 20) λ names.
        Ensures-before _ _
          (update_assigned-Ensures Q Chosen inv fails e.id c.membership_id _
            (set_assigned-Assigns now _ c.membership_id c.matched_ids names))
          λ _.
            Preserves-bind _ _ (conversation_of-Preserves fails now Q e.id)
              λ v. search rows_rules depth 20

    give_oldest-Ensures :
        (present_ids : List ℕ) (entry : Option EscalationRow)
        → Ensures
            (OnRows (Selected entry))
            (λ _. OnRows Q)
            (give_oldest fails now tenant_id actor_user_id present_ids entry)
    give_oldest-Ensures present_ids none = Ensures-pure _ (λ db o. record { rows = o.rows })
    give_oldest-Ensures present_ids (some e) =
        Ensures-then _ _ (read-Preserves _ fails _ _) (give-Ensures e)

    pub drain_any-Preserves :
        (present_ids : List ℕ)
        → PreservesRows Q (drain_any fails now tenant_id actor_user_id present_ids)
    unfolding drain_any
    drain_any-Preserves present_ids = Ensures-Preserves (
        Ensures-then _ _ (Preserves-attempt fails _) λ _.
          Ensures-bind _ _
            (Ensures-then _ _ (Preserves-attempt fails _)
              (λ _. Ensures-gets _ (λ db o. record { rows = oldest-Selected tenant_id db o.rows })))
            (give_oldest-Ensures present_ids))
