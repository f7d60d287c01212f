-- ===== src/Escalations/Steps/Placed.antt =====
-- What the routing of a new escalation does when the database does not fail.
pub mod Outcome
use customer_service_chat_sy.Base.{
  ℕ, ◌≡◌, refl, Bool, true, false, not, Bool-cases, ◌&&◌, inl, inr, List, [], Option, none, some,
  Result, ok, Text, eqb, text_eq, if◌then◌else◌, any, find, length, update_where, find-update_where,
  find_sound, arith,
}
use customer_service_chat_sy.Escalations.Rows.{
  EscalationRow, Conversation, Db, has_id, Call, SqlError, is_active_member, records_assigned,
  escalation_assigned,
}
use customer_service_chat_sy.Escalations.Transaction.{
  Tx, pure, ◌>>◌, ◌>>=◌, after, attempt, ignored,
}
use customer_service_chat_sy.Escalations.Candidates.{Candidate}
use customer_service_chat_sy.Escalations.Routing.{
  RouteOutcome, assigned, new_row, reason_for, notify_actor, routed, route_to,
}
use customer_service_chat_sy.Escalations.Statements.{
  is_conversation, set_assignee, set_escalated_at, same_assignee, assign, set_escalated,
  resolve_actor_membership_id, notify_escalation_assigned, update_checked, update_assigned,
  references_member, set_assigned, set_escalations, skill_names_for_ids, run, record_event,
}

abbrev pub never : Call → Bool
never c = false

abbrev pub is_kept : (t c : ℕ) → Conversation → Bool
is_kept t c v = is_conversation t c v && not v.deleted

-- The conversation is the member's.
pub record Given (t c m : ℕ) (conversations : List Conversation) : Type 0 where
  pub conversation : Conversation
  pub kept : find (is_kept t c) conversations ≡ some conversation
  pub assignee : conversation.assigned_membership_id ≡ some m

same_assignee→≡ : (a b : Option ℕ) → same_assignee a b ≡ true → a ≡ b
same_assignee→≡ none none h = refl
same_assignee→≡ (some a) (some b) h = ground arith
same_assignee→≡ none (some b) h = ground arith
same_assignee→≡ (some a) none h = ground arith

-- A transaction that succeeds, leaves the escalations and gives the conversation to the member.
data Gives (t c m : ℕ) {A E : Type 0} (rows : List EscalationRow) : Result (A × Db) E → Type 0 where
  gives :
      {a : A} {db : Db}
      → db.escalations ≡ rows
      → Given t c m db.conversations
      → Gives t c m rows (ok (a, db))

module _ (t c m : ℕ) (v : Conversation) where
  updated-Given :
      (rows : List Conversation)
      → find (is_kept t c) rows ≡ some v
      → Given t c m (update_where (is_conversation t c) (set_assignee (some m)) rows)
  updated-Given rows h =
      let sound = find_sound (is_kept t c) rows {x = v} h in
      let found : is_conversation t c v ≡ true = ground arith in
      record {
        conversation = set_assignee (some m) v;
        kept = rw found at (
            find-update_where (is_kept t c) (is_conversation t c) (set_assignee (some m)) rows
              {x = v} (λ y. refl) h);
        assignee = refl;
      }

  assign-Gives :
      (actor : ℕ) (db : Db)
      → find (is_kept t c) db.conversations ≡ some v
      → any (is_active_member t m) db.memberships ≡ true
      → Gives t c m db.escalations (assign never t c m actor db)
  unfolding assign ◌>>=◌ attempt
  assign-Gives actor db h k = elim (Bool-cases (same_assignee v.assigned_membership_id (some m))) [
    | inl same ↦ rw h (
        rw same
          (gives refl (record { conversation = v; kept = h; assignee = same_assignee→≡ _ _ same })))
    | inr other ↦ rw h (rw other (rw k (gives refl (updated-Given db.conversations h))))
  ]

module _ (t c m : ℕ) where
  escalated-Given :
      (at_time : Option ℕ) (rows : List Conversation)
      → Given t c m rows
      → Given t c m (update_where (is_conversation t c) (set_escalated_at at_time) rows)
  escalated-Given at_time rows g = record {
    conversation =
        if is_conversation t c g.conversation
        then set_escalated_at at_time g.conversation
        else g.conversation;
    kept =
        find-update_where (is_kept t c) (is_conversation t c) (set_escalated_at at_time) rows
          {x = g.conversation} (λ y. refl) g.kept;
    assignee = ground (arith, g.assignee);
  }

module _ (now t id c : ℕ) (reason : Text) (ids : List ℕ) (names : List Text) (actor : ℕ) where
  abbrev pub new : EscalationRow
  new = new_row now t id c reason ids names

  -- The rows once the escalation is assigned.
  abbrev pub placed_rows : Candidate → List Text → List EscalationRow → List EscalationRow
  placed_rows k matched rows =
      update_where (has_id id)
        (set_assigned now (reason_for k) k.membership_id k.matched_ids matched) rows

  pub data Routes (k : Candidate) (rows : List EscalationRow)
      : Result (RouteOutcome × Db) SqlError → Type 0 where
    places :
        {e : _} {matched : List Text} {db : Db}
        → db.escalations ≡ placed_rows k matched rows
        → Given t c k.membership_id db.conversations
        → Routes k rows (ok (assigned e k.membership_id matched, db))

  -- What follows the assignment of the conversation.
  abbrev finish_route : Candidate → List Text → Tx SqlError RouteOutcome
  finish_route k matched = do
    set_escalated never t c (some now)
    run never records_assigned (
        record_event
          (escalation_assigned actor t id (reason_for k) matched k.load_count k.membership_id))
    actor_membership_id ← resolve_actor_membership_id never t actor
    notify_escalation_assigned never t id c k.membership_id
        (notify_actor actor_membership_id k.membership_id)
    pure (
        assigned
          (routed never now t id c reason ids names actor (reason_for k) matched k.membership_id)
          k.membership_id matched)

  finish_route-Routes :
      (k : Candidate) (matched : List Text) (rows : List EscalationRow)
      (r : Result (Unit {0} × Db) SqlError)
      → Gives t c k.membership_id (placed_rows k matched rows) r
      → Routes k rows (after r (λ _. finish_route k matched))
  unfolding ◌>>=◌ attempt set_escalated resolve_actor_membership_id notify_escalation_assigned
      ignored
  finish_route-Routes k matched rows _ (gives {a} {db} e g) =
      places e (escalated-Given t c k.membership_id (some now) db.conversations g)

  update-Routes :
      (k : Candidate) (v : Conversation) (matched : List Text) (db : Db)
      → find (is_kept t c) db.conversations ≡ some v
      → any (is_active_member t k.membership_id) db.memberships ≡ true
      → Routes k db.escalations (
          after
            (assign never t c k.membership_id actor
              (set_escalations (placed_rows k matched db.escalations) db))
            (λ _. finish_route k matched))
  update-Routes k v matched db h a = finish_route-Routes k matched db.escalations _ (
      assign-Gives t c k.membership_id v actor
        (set_escalations (placed_rows k matched db.escalations) db) h a)

  pub route_to-Routes :
      (k : Candidate) (v : Conversation) (db : Db)
      → references_member (has_id id) k.membership_id db ≡ true
      → find (is_kept t c) db.conversations ≡ some v
      → any (is_active_member t k.membership_id) db.memberships ≡ true
      → Routes k db.escalations (route_to never now t id c reason ids names actor k db)
  unfolding ◌>>=◌ attempt update_assigned update_checked
  route_to-Routes k v db r h a =
      elim (Bool-cases (not (eqb k.match_count 0) && not (eqb (length k.matched_ids) 0))) [
        | inl some_matched ↦
            rw some_matched
              (rw r (update-Routes k v (skill_names_for_ids t k.matched_ids db) db h a))
        | inr none_matched ↦ rw none_matched (rw r (update-Routes k v [] db h a))
      ]
