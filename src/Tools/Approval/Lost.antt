-- ===== src/Tools/Approval/Lost.antt =====
-- A decision whose transaction fails is lost, whatever operations follow.
use customer_service_chat_sy.Base.{
  ℕ, ◌≤◌, Bool, true, false, ◌≡◌, refl, some, arith, eqb, find, count, ok, err,
}
use customer_service_chat_sy.Tools.Approval.{
  ToolRequest, Db, is_awaiting, is_row, is_open_row, set_decision, decide, already_settled,
  transaction_failed, sweep_expired, sweep_select, sweep_apply, is_swept, set_expired,
  is_pending_of, set_cancelled, cancel_pending_for_conversation,
}
use customer_service_chat_sy.Tools.Approval.Races.{
  is_decision_on, set_not_awaiting, after_update, none_open, row_set, decide_commit_failed,
}
use customer_service_chat_sy.Tools.Approval.Settled
use customer_service_chat_sy.Tools.Approval.Settled.{Steps, decide_requests, settled_stays}
use customer_service_chat_sy.Tools.Approval.Events.{
  AtomicStep, decides, sweeps, cancels, AtomicSteps, nothing, after, closes, AtomicSteps-sent,
}

AtomicStep-Step : {db db' : Db} → AtomicStep db db' → Settled.Step db db'
unfolding sweep_expired
AtomicStep-Step (decides t i by approve now commits) = Settled.decides t i by approve now commits
AtomicStep-Step {db} (sweeps now later) = Settled.sweeps (sweep_select db now) later
AtomicStep-Step (cancels t c now) = Settled.cancels t c now

AtomicSteps-Steps : {db db' : Db} → AtomicSteps db db' → Steps db db'
AtomicSteps-Steps nothing = Settled.here
AtomicSteps-Steps (after before step) =
    Settled.next (AtomicSteps-Steps before) (AtomicStep-Step step)

module _ (tenant_id id : ℕ) where
  abbrev open_rows : Db → ℕ
  open_rows db = count (is_open_row tenant_id id) db.requests

  AtomicStep-open : {db db' : Db} → AtomicStep db db' → open_rows db' ≤ open_rows db
  unfolding sweep_expired sweep_apply cancel_pending_for_conversation
  AtomicStep-open {db} (decides t i by approve now commits) =
      rw (decide_requests db t i by approve now commits) (
        closes tenant_id id (is_open_row t i) (set_decision approve by now) db.requests
          (λ x. ground (arith, set_not_awaiting approve by now x)))
  AtomicStep-open {db} (sweeps now later) =
      closes tenant_id id (is_swept (sweep_select db now)) (set_expired later) db.requests
        (λ x. ground arith)
  AtomicStep-open {db} (cancels t c now) =
      closes tenant_id id (is_pending_of t c) (set_cancelled now) db.requests (λ x. ground arith)

  AtomicSteps-open : {db db' : Db} → AtomicSteps db db' → open_rows db' ≤ open_rows db
  AtomicSteps-open nothing = omega arith
  AtomicSteps-open (after before step) =
      omega (arith, AtomicSteps-open before, AtomicStep-open step)

module _ (db : Db) (tenant_id id by : ℕ) (approve : Bool) (now : ℕ) (r : ToolRequest)
    (found : find (is_row tenant_id id) db.requests ≡ some r)
    (awaiting : is_awaiting r.status ≡ true) where
  abbrev lost_db : Db
  lost_db = after_update db tenant_id id by approve now r found awaiting

  never_sent :
      {db' : Db}
      → AtomicSteps lost_db db'
      → count (is_decision_on tenant_id id) db'.outbox
        ≤ count (is_decision_on tenant_id id) db.outbox
  never_sent steps = omega (
    arith,
    AtomicSteps-sent tenant_id id steps,
    none_open db tenant_id id by approve now r found awaiting,
  )

  answered :
      {db' : Db}
      → AtomicSteps lost_db db'
      → (by' : ℕ) (approve' : Bool) (now' : ℕ) (commits' : Bool)
      → decide db' tenant_id id by' approve' now' commits'
        ≡ (db', ok (already_settled (set_decision approve by now r)))
  unfolding decide
  answered {db'} steps by' approve' now' commits' =
      let closed : eqb (count (is_open_row tenant_id id) db'.requests) 0 ≡ true = ground (
        arith,
        AtomicSteps-open tenant_id id steps,
        none_open db tenant_id id by approve now r found awaiting,
      ) in
      let row =
        settled_stays tenant_id id (set_decision approve by now r)
          (set_not_awaiting approve by now r) (AtomicSteps-Steps steps)
          (row_set db tenant_id id by approve now r found awaiting) in
      rw closed (rw row refl)

  -- When the transaction of a decision fails, the caller is told so and no event is written, but
  -- the row is already set. After any further decisions, cancellations and uninterrupted sweeps no
  -- decision has been sent for the request in addition to those sent before, and any decision on
  -- it, by anyone, answers that it is settled and changes nothing.
  pub lost_decision :
      {db' : Db}
      → AtomicSteps (decide db tenant_id id by approve now false).0 db'
      → (by' : ℕ) (approve' : Bool) (now' : ℕ) (commits' : Bool)
      → ((decide db tenant_id id by approve now false).1 ≡ err transaction_failed)
        × ((decide db tenant_id id by approve now false).0.outbox ≡ db.outbox)
        × (count (is_decision_on tenant_id id) db'.outbox
            ≤ count (is_decision_on tenant_id id) db.outbox)
        × (decide db' tenant_id id by' approve' now' commits'
            ≡ (db', ok (already_settled (set_decision approve by now r))))
  lost_decision {db'} steps by' approve' now' commits' =
      let failed = decide_commit_failed db tenant_id id by approve now r found awaiting in
      let steps' = rw failed at steps in
      rw failed (refl, refl, never_sent steps', answered steps' by' approve' now' commits')
