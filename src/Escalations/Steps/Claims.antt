-- ===== src/Escalations/Steps/Claims.antt =====
-- An escalation is claimed once.
use customer_service_chat_sy.Base.{
  ℕ, zero, suc, ◌≡◌, refl, Bool, true, false, not, Bool-cases, ◌&&◌, ◌||◌, inl, inr, List, [], ◌∷◌,
  Option, none, some, ok, err, eqb, text_eq, if◌then◌else◌, any, all, count, find, update_where,
  update_where-none, arith,
}
use customer_service_chat_sy.Tenancy.Roster.{Membership}
use customer_service_chat_sy.Escalations.Rows.{
  EscalationRow, Db, Call, updates_escalation, reads_escalation, has_id, is_queued, is_assignee,
}
use customer_service_chat_sy.Escalations.Transaction.{◌>>=◌, gets, map_err, attempt}
use customer_service_chat_sy.Escalations.Transaction.Preserves.{
  Preserves-attempt, Preserves-map_err,
}
use customer_service_chat_sy.Escalations.Transaction.Ensures.{
  success, failure, if_Outcome, Ensures, Ensures-bind, Ensures-then, Ensures-gets, Ensures-map_err,
  Ensures-throw, Ensures-weak, Ensures-ok,
}
use customer_service_chat_sy.Escalations.Statements.{
  references_member, update_checked, update_assigned,
}
use customer_service_chat_sy.Escalations.Statements.Untouched.{OnRows, read-Preserves}
use customer_service_chat_sy.Escalations.Views.{Escalation}
use customer_service_chat_sy.Escalations.Consistent.{IsConsistent, all_unique, all-of_count}
use customer_service_chat_sy.Escalations.Kept.Claimed.{claim_updated-Preserves}
use customer_service_chat_sy.Escalations.Claim.{
  already_claimed, internal, claim, claim_updated, unclaimed, or_not_found, is_claimable,
  set_claimed,
}
use customer_service_chat_sy.Escalations.Steps.{RoutingSteps}
use customer_service_chat_sy.Escalations.Steps.Held.{
  AssignedTo, is_row, is_held, queued_only, RoutingSteps-AssignedTo,
}

pub all-set :
    (q p fits : EscalationRow → Bool) (f : EscalationRow → EscalationRow)
    (rows : List EscalationRow)
    → all fits rows ≡ true
    → ((e : EscalationRow) → fits e ≡ true → q (if p e then f e else e) ≡ true)
    → all q (update_where p f rows) ≡ true
all-set q p fits f [] h k = refl
all-set q p fits f (e ∷ rows) h k = ground (arith, k e, all-set q p fits f rows)

module _ (t id : ℕ) where
  abbrev is_free : EscalationRow → Bool
  is_free e = eqb e.tenant_id t && is_queued e

  free_row :
      (rows : List EscalationRow) (n : ℕ)
      → count (is_claimable t id) rows ≡ suc n
      → any (λ e. has_id id e && is_free e) rows ≡ true
  free_row [] n h = ground arith
  free_row (e ∷ rows) n h = ground (arith, free_row rows n)

  none_free :
      (m : ℕ) (rows : List EscalationRow)
      → all (is_held id m) rows ≡ true
      → count (is_claimable t id) rows ≡ 0
  none_free m [] h = refl
  none_free m (e ∷ rows) h = ground (arith, queued_only e, none_free m rows)

  module _ (now m : ℕ) where
    claimed_there :
        (rows : List EscalationRow)
        → any (λ e. has_id id e && is_free e) rows ≡ true
        → any (is_row t id) (update_where (is_claimable t id) (set_claimed now m) rows) ≡ true
    claimed_there [] h = h
    claimed_there (e ∷ rows) h = ground (arith, claimed_there rows)

    claimed-AssignedTo :
        (rows : List EscalationRow) (n : ℕ)
        → IsConsistent rows
        → count (is_claimable t id) rows ≡ suc n
        → AssignedTo t id m (update_where (is_claimable t id) (set_claimed now m) rows)
    claimed-AssignedTo rows n c h = record {
      there = claimed_there rows (free_row rows n h);
      held =
          all-set (is_held id m) (is_claimable t id) (λ e. not (has_id id e) || is_free e)
            (set_claimed now m) rows
            (all_unique (has_id id) is_free rows (free_row rows n h) (c.ids id))
            (λ e k. ground arith);
    }

-- What holds of the rows affected, and after the update if there were any.
abbrev Counted : (t id n : ℕ) → List EscalationRow → Type 0
Counted t id n rows = IsConsistent rows × (count (is_claimable t id) rows ≡ n)

abbrev Taken : (t id m n : ℕ) → List EscalationRow → Type 0
Taken t id m zero rows = Unit
Taken t id m (suc n) rows = AssignedTo t id m rows

module _ (fails : Call → Bool) (now t id m actor : ℕ) where
  taken :
      (rows : List EscalationRow) (n : ℕ)
      → Counted t id n rows
      → Taken t id m n (update_where (is_claimable t id) (set_claimed now m) rows)
  taken rows zero c = tt
  taken rows (suc n) (c, h) = claimed-AssignedTo t id now m rows n c h

  update-Ensures :
      (n : ℕ)
      → Ensures
          (OnRows (Counted t id n))
          (λ _. OnRows (Taken t id m n))
          (update_assigned fails (is_claimable t id) m (set_claimed now m))
  unfolding update_assigned update_checked
  update-Ensures n = Ensures-then _ _ (Preserves-attempt fails _) λ _. record {
    from = λ db o.
        if_Outcome _ (references_member (is_claimable t id) m db)
          (λ _. success (record { rows = taken db.escalations n o.rows })) (λ _. failure);
  }

  unclaimed-fails :
      {P : Db → Type 0} (row : Option EscalationRow)
      → Ensures P (λ (e : Escalation). OnRows (AssignedTo t id m)) (unclaimed row)
  unclaimed-fails none = Ensures-throw _
  unclaimed-fails (some row) = never row.assigned_membership_id
    where
      never :
          {P : Db → Type 0} (o : Option ℕ)
          → Ensures P (λ (e : Escalation). OnRows (AssignedTo t id m)) (or_not_found o)
      never none = Ensures-throw _
      never (some a) = Ensures-throw _

  answered :
      (n : ℕ)
      → Ensures
          (OnRows (Taken t id m n))
          (λ _. OnRows (AssignedTo t id m))
          (claim_updated fails now t id m actor n)
  answered zero =
      Ensures-then _ _ (Preserves-map_err internal _ (read-Preserves (Taken t id m zero) fails _ _))
        unclaimed-fails
  answered (suc n) =
      Ensures-weak (claim_updated-Preserves (AssignedTo t id m) fails now t id m actor (suc n))
        (λ db o. o)

  pub claim-Ensures :
      Ensures (OnRows IsConsistent) (λ _. OnRows (AssignedTo t id m)) (claim fails now t id m actor)
  unfolding claim
  claim-Ensures =
      Ensures-bind (gets (λ (db : Db). count (is_claimable t id) db.escalations)) _
        (Ensures-gets {R = λ n. OnRows (Counted t id n)} _
          (λ db o. record { rows = (o.rows, refl) }))
        λ n. Ensures-bind _ _ (Ensures-map_err internal _ (update-Ensures n)) (λ _. answered n)

module _ (t id m : ℕ) where
  is_assignee→≡ : (o : Option ℕ) → is_assignee o m ≡ true → o ≡ some m
  is_assignee→≡ none h = ground arith
  is_assignee→≡ (some a) h = ground arith

  held_row :
      (rows : List EscalationRow)
      → any (is_row t id) rows ≡ true
      → all (is_held id m) rows ≡ true
      → (r : EscalationRow) × (find (is_row t id) rows ≡ some r)
        × (r.assigned_membership_id ≡ some m)
  held_row [] h k = absurd (ground arith)
  held_row (e ∷ rows) h k = elim (Bool-cases (is_row t id e)) [
    | inl here ↦ (e, rw here, is_assignee→≡ e.assigned_membership_id (ground arith))
    | inr other ↦ rw other (held_row rows (ground arith) (ground arith))
  ]

pub update_nothing :
    (p : EscalationRow → Bool) (m : ℕ) (f : EscalationRow → EscalationRow) (db : Db)
    → count p db.escalations ≡ 0
    → update_checked p m f db ≡ ok (tt, db)
unfolding update_checked
update_nothing p m f db h = rw (update_where-none p f db.escalations h) (
    rw
      (all-of_count p
        (λ e. any (λ (x : Membership). eqb x.tenant_id e.tenant_id && eqb x.id m) db.memberships)
        db.escalations h)
      refl)

module _ (fails : Call → Bool) (now t id m m' actor : ℕ) where
  claim-already_claimed :
      (db : Db)
      → fails updates_escalation ≡ false
      → fails reads_escalation ≡ false
      → AssignedTo t id m db.escalations
      → claim fails now t id m' actor db ≡ err (already_claimed m)
  unfolding claim update_assigned ◌>>=◌ map_err attempt
  claim-already_claimed db fu fr h =
      let none_left = none_free t id m db.escalations h.held in
      let (r, found, assignee) = held_row t id m db.escalations h.there h.held in
      rw (none_left, fu, fr)
        (rw (update_nothing (is_claimable t id) m' (set_claimed now m') db none_left)
          (rw found (rw assignee refl)))

-- Once a member has claimed an escalation, and whatever routings, claims and drainings have run since,
-- a claim by any member answers that the first has it, if its update and its reading do not fail.
pub claimed_once :
    (fails fails' : Call → Bool) (now now' t id m actor m' actor' : ℕ) (db : Db) {e : Escalation}
    {db' db'' : Db}
    → IsConsistent db.escalations
    → claim fails now t id m actor db ≡ ok (e, db')
    → RoutingSteps db' db''
    → fails' updates_escalation ≡ false
    → fails' reads_escalation ≡ false
    → claim fails' now' t id m' actor' db'' ≡ err (already_claimed m)
claimed_once fails fails' now now' t id m actor m' actor' db {e} {db'} {db''} c h steps fu fr =
    let first =
      Ensures-ok (claim fails now t id m actor) db (claim-Ensures fails now t id m actor)
        (record { rows = c }) h in
    claim-already_claimed fails' now' t id m m' actor' db'' fu fr
      (RoutingSteps-AssignedTo t id m steps first.rows)
