-- ===== src/Tools/Approval/Races.antt =====
-- What may happen between the statements that share no transaction.
use customer_service_chat_sy.Base.{
  ℕ, ◌<◌, Bool, true, false, ◌≡◌, refl, ap, ◌∙◌, List, [], ◌∷◌, some, arith, eqb, retain, map,
  count-append, find, count, update_where, find-update_where, find_sound, ◌&&◌, err, Text, text_eq,
  codes, ◌==◌, ==_refl, ◌++◌,
}
use customer_service_chat_sy.Tools.Approval.{
  ToolRequest, OutboxEvent, tool_decision, notification_resolved, Db, is_awaiting, is_row,
  is_open_row, decided, set_decision, decide, decision_text, is_past, is_overdue, is_swept,
  set_expired, expired_event, sweep_select, sweep_apply, transaction_failed,
}

count-both :
    (q p : ToolRequest → Bool) (xs : List ToolRequest) {r : ToolRequest}
    → find q xs ≡ some r
    → p r ≡ true
    → 0 < count (λ x. q x && p x) xs
count-both q p [] e h = ground arith
count-both q p (x ∷ xs) {r} e h = ground (arith, count-both q p xs {r = r})

pub count-update_where_self :
    (p : ToolRequest → Bool) (f : ToolRequest → ToolRequest) (xs : List ToolRequest)
    → ((x : ToolRequest) → p (f x) ≡ false)
    → count p (update_where p f xs) ≡ 0
count-update_where_self p f [] h = refl
count-update_where_self p f (x ∷ xs) h = ground (arith, h x, count-update_where_self p f xs h)

pub set_not_awaiting :
    (approve : Bool) (by now : ℕ) (x : ToolRequest)
    → is_awaiting (set_decision approve by now x).status ≡ false
set_not_awaiting true by now x = refl
set_not_awaiting false by now x = refl

-- A `tool_decision` for the request.
abbrev pub is_decision_on : (tenant_id id : ℕ) → OutboxEvent → Bool
is_decision_on tenant_id id (tool_decision t c i outcome) = eqb i id && eqb t tenant_id
is_decision_on tenant_id id (notification_resolved t i by) = false

-- A `tool_decision` for the request with the outcome.
abbrev pub is_outcome_on : (tenant_id id : ℕ) → Text → OutboxEvent → Bool
is_outcome_on tenant_id id outcome (tool_decision t c i o) =
    (eqb i id && eqb t tenant_id) && o == outcome
is_outcome_on tenant_id id outcome (notification_resolved t i by) = false

expired_events :
    (tenant_id id : ℕ) (p : ToolRequest → Bool) (xs : List ToolRequest) {r : ToolRequest}
    → find (is_row tenant_id id) xs ≡ some r
    → p r ≡ true
    → 0 < count (is_outcome_on tenant_id id (codes "expired")) (map expired_event (retain p xs))
expired_events t i p [] e h = ground arith
expired_events t i p (x ∷ xs) {r} e h = ground (arith, expired_events t i p xs {r = r})

module _ (db : Db) (tenant_id id by : ℕ) (approve : Bool) (now : ℕ) (r : ToolRequest)
    (found : find (is_row tenant_id id) db.requests ≡ some r)
    (awaiting : is_awaiting r.status ≡ true) where
  abbrev pub after_update : Db
  after_update = record db {
    requests = update_where (is_open_row tenant_id id) (set_decision approve by now) db.requests;
  }

  open_row : eqb (count (is_open_row tenant_id id) db.requests) 0 ≡ false
  open_row =
      let some_row =
        count-both (is_row tenant_id id) (λ x. is_awaiting x.status) db.requests found awaiting in
      ground (arith, some_row)

  pub row_set :
      find (is_row tenant_id id) after_update.requests ≡ some (set_decision approve by now r)
  row_set =
      let is_r = find_sound (is_row tenant_id id) db.requests found in
      find-update_where (is_row tenant_id id) (is_open_row tenant_id id)
        (set_decision approve by now) db.requests (λ x. refl) found
      ∙ ap some (rw is_r (rw awaiting refl))

  -- A request that awaits approval is decided: the row is set, and one decision and one
  -- notification are sent, if the transaction commits; otherwise the row is set all the same.
  decide_open :
      (commits : Bool)
      → decide db tenant_id id by approve now commits
        ≡ decided after_update tenant_id id by approve commits
            (some (set_decision approve by now r))
  unfolding decide
  decide_open commits =
      rw open_row (ap (decided after_update tenant_id id by approve commits) row_set)

  pub decide_commit_failed :
      decide db tenant_id id by approve now false ≡ (after_update, err transaction_failed)
  decide_commit_failed = decide_open false

  pub none_open : count (is_open_row tenant_id id) after_update.requests ≡ 0
  none_open =
      count-update_where_self (is_open_row tenant_id id) (set_decision approve by now) db.requests
        (λ x. ground (arith, set_not_awaiting approve by now x))

  -- A sweep that read an overdue request before it was decided leaves it decided, but sends a
  -- second decision for it: besides the one of the outcome, one that it expired.
  pub swept_twice :
      (later : ℕ)
      → is_past r.expires_at now ≡ true
      → let rows = sweep_select db now in
        let decided_db = (decide db tenant_id id by approve now true).0 in
        let swept = (sweep_apply decided_db rows later).0 in
        let sent : Text → List OutboxEvent → ℕ =
          λ outcome. count (is_outcome_on tenant_id id outcome) in
        (find (is_row tenant_id id) swept.requests ≡ some (set_decision approve by now r))
        × (sent (decision_text approve) db.outbox < sent (decision_text approve) swept.outbox)
        × (sent (codes "expired") db.outbox < sent (codes "expired") swept.outbox)
  unfolding sweep_select sweep_apply
  swept_twice later overdue =
      let rows = sweep_select db now in
      let closed : is_awaiting (set_decision approve by now r).status ≡ false =
        set_not_awaiting approve by now r in
      let stays =
        find-update_where (is_row tenant_id id) (is_swept rows) (set_expired later)
          after_update.requests (λ x. refl) row_set in
      let news =
        tool_decision tenant_id r.conversation_id id (decision_text approve)
        ∷ notification_resolved tenant_id id by
        ∷ [] in
      let sent = db.outbox ++ news in
      let outcome = is_outcome_on tenant_id id (decision_text approve) in
      let decided_again = count-append outcome sent (map expired_event rows) in
      let decided_once = count-append outcome db.outbox news in
      let expired_on = is_outcome_on tenant_id id (codes "expired") in
      let expired_last = count-append expired_on sent (map expired_event rows) in
      let expired_first = count-append expired_on db.outbox news in
      let third =
        expired_events tenant_id id (is_overdue now) db.requests found
          (ground (arith, awaiting, overdue)) in
      let same = ==_refl (decision_text approve) in
      rw (decide_open true) (
        stays ∙ ap some (ground (arith, closed)),
        ground (arith, decided_again, decided_once, same),
        ground (arith, expired_last, expired_first, third),
      )
