-- ===== src/Tools/Approval/Settled.antt =====
-- A request that no longer awaits approval is changed by no operation.
use customer_service_chat_sy.Base.{
  ℕ, Bool, true, false, ◌≡◌, refl, ap, ◌∙◌, inl, inr, List, Option, none, some, arith, eqb,
  Bool-cases, find, count, update_where, find-update_where, update_where-none,
}
use customer_service_chat_sy.Tools.Approval.{
  ToolRequest, Db, is_awaiting, is_row, is_open_row, decided, settled, set_decision, decide,
  is_swept, set_expired, sweep_apply, is_pending_of, set_cancelled, cancel_pending_for_conversation,
}

settled_requests :
    (db : Db) (found : Option ToolRequest) → (settled db found).0.requests ≡ db.requests
settled_requests db none = refl
settled_requests db (some row) = refl

pub decided_requests :
    (db : Db) (tenant_id id by : ℕ) (approve commits : Bool) (found : Option ToolRequest)
    → (decided db tenant_id id by approve commits found).0.requests ≡ db.requests
decided_requests db tenant_id id by approve commits none = refl
decided_requests db tenant_id id by approve true (some row) = refl
decided_requests db tenant_id id by approve false (some row) = refl

-- What `decide` does to the rows, whatever it answers.
pub decide_requests :
    (db : Db) (tenant_id id by : ℕ) (approve : Bool) (now : ℕ) (commits : Bool)
    → (decide db tenant_id id by approve now commits).0.requests
      ≡ update_where (is_open_row tenant_id id) (set_decision approve by now) db.requests
unfolding decide
decide_requests db tenant_id id by approve now commits =
    elim (Bool-cases (eqb (count (is_open_row tenant_id id) db.requests) 0)) [
      | inl closed ↦ rw closed (
          rw
            (update_where-none (is_open_row tenant_id id) (set_decision approve by now) db.requests
              (ground arith))
            (settled_requests db (find (is_row tenant_id id) db.requests)))
      | inr awaiting ↦ rw awaiting (decided_requests _ tenant_id id by approve commits _)
    ]

-- One operation, by anyone; a sweep may work on rows that were read at any earlier time.
pub data Step (db : Db) : Db → Type 0 where
  decides :
      (tenant_id id by : ℕ) (approve : Bool) (now : ℕ) (commits : Bool)
      → Step db (decide db tenant_id id by approve now commits).0
  sweeps : (rows : List ToolRequest) (now : ℕ) → Step db (sweep_apply db rows now).0
  cancels :
      (tenant_id conversation_id now : ℕ)
      → Step db (cancel_pending_for_conversation db tenant_id conversation_id now).0

pub data Steps (db : Db) : Db → Type 0 where
  here : Steps db db
  next : {db' db'' : Db} → Steps db db' → Step db' db'' → Steps db db''

kept :
    (p : ToolRequest → Bool) (f : ToolRequest → ToolRequest) (tenant_id id : ℕ)
    (rows : List ToolRequest) (r : ToolRequest)
    → ((x : ToolRequest) → is_row tenant_id id (f x) ≡ is_row tenant_id id x)
    → p r ≡ false
    → find (is_row tenant_id id) rows ≡ some r
    → find (is_row tenant_id id) (update_where p f rows) ≡ some r
kept p f tenant_id id rows r same out found =
    find-update_where (is_row tenant_id id) p f rows same found ∙ ap some (rw out)

module _ (tenant_id id : ℕ) (r : ToolRequest) (closed : is_awaiting r.status ≡ false) where
  Step-keeps :
      {db db' : Db}
      → Step db db'
      → find (is_row tenant_id id) db.requests ≡ some r
      → find (is_row tenant_id id) db'.requests ≡ some r
  unfolding sweep_apply cancel_pending_for_conversation
  Step-keeps {db} (decides t i by approve now commits) found =
      rw (decide_requests db t i by approve now commits) (
        kept (is_open_row t i) (set_decision approve by now) tenant_id id db.requests r (λ x. refl)
          (ground arith) found)
  Step-keeps {db} (sweeps rows now) found =
      kept (is_swept rows) (set_expired now) tenant_id id db.requests r (λ x. refl) (ground arith)
        found
  Step-keeps {db} (cancels t c now) found =
      kept (is_pending_of t c) (set_cancelled now) tenant_id id db.requests r (λ x. refl)
        (ground arith) found

  -- A row that does not await approval is found unchanged after any number of decisions, sweeps
  -- (also of rows read earlier) and cancellations.
  pub settled_stays :
      {db db' : Db}
      → Steps db db'
      → find (is_row tenant_id id) db.requests ≡ some r
      → find (is_row tenant_id id) db'.requests ≡ some r
  settled_stays here found = found
  settled_stays (next before step) found = Step-keeps step (settled_stays before found)
