-- ===== src/Escalations/Steps/Races.antt =====
-- What the routing does not prevent: a claim between the two halves of a draining, and a second
-- assignment by hand.
use customer_service_chat_sy.Base.{
  ℕ, ◌≤◌, ◌≡◌, refl, Bool, true, false, Bool-cases, inl, inr, List, [], ◌∷◌, Option, none, some, ok,
  Text, text_eq, any, all, count, find, update_where, arith,
}
use customer_service_chat_sy.Escalations.Rows.{
  EscalationRow, Db, Call, updates_escalation, relabels_escalation, has_id, is_assigned,
  is_active_for,
}
use customer_service_chat_sy.Escalations.Transaction.{◌>>=◌, attempt}
use customer_service_chat_sy.Escalations.Transaction.Preserves.{Preserves-bind, Preserves-attempt}
use customer_service_chat_sy.Escalations.Transaction.Ensures.{
  success, failure, if_Outcome, Ensures, Ensures-then, Ensures-before, Ensures-ok, Ensures-value,
}
use customer_service_chat_sy.Escalations.Statements.{
  references_member, update_checked, update_assigned, set_assigned,
}
use customer_service_chat_sy.Escalations.Statements.Untouched.{OnRows, rows_rules}
use customer_service_chat_sy.Escalations.Views.{Escalation}
use customer_service_chat_sy.Escalations.Consistent.{IsConsistent, queued_where}
use customer_service_chat_sy.Escalations.Consistent.Invariance.{Ready, consistent}
use customer_service_chat_sy.Escalations.Kept.Drained.{
  required_names-Preserves, conversation_of-Preserves, select_entry-Ensures,
}
use customer_service_chat_sy.Escalations.Claim.{claim}
use customer_service_chat_sy.Escalations.Drain.{select_entry, apply_entry}
use customer_service_chat_sy.Escalations.Closing.{
  is_queued_for, is_relabelled_for, is_manual, set_reassigned, set_relabelled, relabel_assigned,
  relabel_reassignment,
}
use customer_service_chat_sy.Escalations.Steps.Held.{AssignedTo, is_row, is_held, queued_only}
use customer_service_chat_sy.Escalations.Steps.Claims.{all-set, claim-Ensures, update_nothing}

module _ (t id m : ℕ) where
  abbrev pub There : List EscalationRow → Type 0
  There rows = any (is_row t id) rows ≡ true

  always : (rows : List EscalationRow) → all (λ (e : EscalationRow). true) rows ≡ true
  always [] = refl
  always (e ∷ rows) = always rows

  module _ (now : ℕ) (reason : Text) (ids : List ℕ) (names : List Text) where
    assigned-There :
        (rows : List EscalationRow)
        → There rows
        → There (update_where (has_id id) (set_assigned now reason m ids names) rows)
    assigned-There [] h = h
    assigned-There (e ∷ rows) h = ground (arith, assigned-There rows)

    pub assigned-AssignedTo :
        (rows : List EscalationRow)
        → There rows
        → AssignedTo t id m (update_where (has_id id) (set_assigned now reason m ids names) rows)
    assigned-AssignedTo rows h = record {
      there = assigned-There rows h;
      held =
          all-set (is_held id m) (has_id id) (λ e. true) (set_assigned now reason m ids names) rows
            (always rows) (λ e k. ground arith);
    }

  module _ (fails : Call → Bool) (now actor : ℕ) where
    overwritten :
        (reason : Text) (ids : List ℕ) (names : List Text)
        → Ensures
            (OnRows There)
            (λ _. OnRows (AssignedTo t id m))
            (update_assigned fails (has_id id) m (set_assigned now reason m ids names))
    unfolding update_assigned update_checked
    overwritten reason ids names = Ensures-then _ _ (Preserves-attempt fails _) λ _. record {
      from = λ db o.
          if_Outcome _ (references_member (has_id id) m db)
            (λ _.
              success
                (record { rows = assigned-AssignedTo now reason ids names db.escalations o.rows }))
            (λ _. failure);
    }

module _ (t m : ℕ) (fails : Call → Bool) (now actor : ℕ) (entry : EscalationRow) where
  apply_entry-AssignedTo :
      Ensures
        (OnRows (There t entry.id m))
        (λ _. OnRows (AssignedTo t entry.id m))
        (apply_entry fails now t m actor entry)
  unfolding apply_entry
  apply_entry-AssignedTo =
      Ensures-then _ _ (required_names-Preserves fails now _ t entry.required_skill_ids) λ names.
        Ensures-before _ _
          (overwritten t entry.id m fails now actor _ entry.required_skill_ids names)
          λ _.
            Preserves-bind _ _
              (conversation_of-Preserves fails now (AssignedTo t entry.id m) entry.id)
              λ c. search rows_rules depth 20

-- A draining selects an entry, which is queued then. If a claim of the entry comes before the
-- draining's update, and both the claim and the rest of the draining succeed, the entry is assigned to
-- the claimant after the claim, and to the draining's member in the end.
pub claim_overwritten :
    (fails fails' : Call → Bool) (now now' t m actor m' actor' : ℕ) {entry : EscalationRow}
    (db : Db) {e : Escalation} {drained : Option ℕ} {selected db' db'' : Db}
    → IsConsistent db.escalations
    → select_entry fails' now' t m' db ≡ ok (some entry, selected)
    → claim fails now t entry.id m actor selected ≡ ok (e, db')
    → apply_entry fails' now' t m' actor' entry db' ≡ ok (drained, db'')
    → (all (queued_where (has_id entry.id)) selected.escalations ≡ true)
      × AssignedTo t entry.id m db'.escalations
      × AssignedTo t entry.id m' db''.escalations
claim_overwritten fails fails' now now' t m actor m' actor' {entry} db {e} {drained} {selected}
      {db'} {db''} c s h k =
    let before =
      Ensures-value (select_entry fails' now' t m') db
        (select_entry-Ensures IsConsistent Ready consistent fails' now' t m' actor')
        (record { rows = c }) s in
    let first =
      Ensures-ok (claim fails now t entry.id m actor) selected
        (claim-Ensures fails now t entry.id m actor) (record { rows = before.rows.0 }) h in
    let second =
      Ensures-ok (apply_entry fails' now' t m' actor' entry) db'
        (apply_entry-AssignedTo t m' fails' now' actor' entry) (record { rows = first.rows.there })
        k in
    (before.rows.1, first.rows, second.rows)

module _ (p q : EscalationRow → Bool) where
  find-none : (rows : List EscalationRow) → count p rows ≡ 0 → find p rows ≡ none
  find-none [] h = refl
  find-none (e ∷ rows) h = ground (arith, find-none rows)

  count-zero :
      (rows : List EscalationRow)
      → ((e : EscalationRow) → q e ≡ true → p e ≡ true)
      → count p rows ≡ 0
      → count q rows ≡ 0
  count-zero [] sub h = refl
  count-zero (e ∷ rows) sub h = ground (arith, sub e, count-zero rows sub)

  -- The only row with the first mark has not the second, which implies the first.
  count-found :
      (rows : List EscalationRow) {e : EscalationRow}
      → ((e : EscalationRow) → q e ≡ true → p e ≡ true)
      → find p rows ≡ some e
      → count p rows ≤ 1
      → q e ≡ false
      → count q rows ≡ 0
  count-found [] sub f h k = refl
  count-found (x ∷ rows) {e} sub f h k = elim (Bool-cases (p x)) [
    | inl fits ↦
        let this : x ≡ e = ground arith in
        let none_else = count-zero rows sub (ground arith) in
        let unmarked : q x ≡ false = rw this k in ground (arith, none_else, unmarked)
    | inr other ↦
        let rest = count-found rows sub (ground arith) (ground arith) k in
        ground (arith, rest, sub x)
  ]

-- An escalation that was once assigned by hand, and is still assigned, is left with its member when
-- its conversation is assigned to another: the event changes nothing and records nothing, if its two
-- statements do not fail.
pub reassigned_again :
    (fails : Call → Bool) (now t c m : ℕ) (db : Db) {e : EscalationRow}
    → IsConsistent db.escalations
    → find (is_active_for t c) db.escalations ≡ some e
    → is_assigned e ≡ true
    → is_manual e.routing_reason ≡ true
    → fails updates_escalation ≡ false
    → fails relabels_escalation ≡ false
    → relabel_reassignment fails now t c (some m) db ≡ ok (tt, db)
unfolding relabel_reassignment relabel_assigned ◌>>=◌ attempt
reassigned_again fails now t c m db {e} cons f assigned man fu fr =
    let one = cons.one_active t c in
    let unqueued : is_queued_for t c e ≡ false = ground (arith, queued_only e) in
    let unrelabelled : is_relabelled_for t c e ≡ false = ground arith in
    let no_queued =
      count-found (is_active_for t c) (is_queued_for t c) db.escalations (λ x h. ground arith) f one
        unqueued in
    let no_relabelled =
      count-found (is_active_for t c) (is_relabelled_for t c) db.escalations (λ x h. ground arith) f
        one unrelabelled in
    rw fu (
      rw (find-none (is_queued_for t c) (is_queued_for t c) db.escalations no_queued) (
        rw (update_nothing (is_queued_for t c) m (set_reassigned now m) db no_queued) (
          rw fr (
            rw (find-none (is_relabelled_for t c) (is_queued_for t c) db.escalations no_relabelled)
              (rw
                (update_nothing (is_relabelled_for t c) m (set_relabelled now (some m)) db
                  no_relabelled)
                refl)))))
