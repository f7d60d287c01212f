-- ===== src/Tools/Approval/Events.antt =====
-- How many decisions are sent for one request, when a sweep's two statements come together.
use mathlib.Core.List.{Memᴰ}
use mathlib.Core.List.Memᴰ
use customer_service_chat_sy.Base.{
  ℕ, ◌+◌, ◌≤◌, Bool, true, false, ◌&&◌, ◌≡◌, refl, inl, inr, List, [], ◌∷◌, map, Option, none, some,
  arith, eqb, Bool-cases, if◌then◌else◌, any, find, retain, count, update_where, count-append,
}
use customer_service_chat_sy.Tools.Approval.{
  ToolRequest, Db, has_id, is_row, is_open_row, set_decision, decided, settled, emit_decided,
  decide, is_overdue, sweep_expired, sweep_select, sweep_apply, is_swept, set_expired,
  expired_event, is_pending_of, set_cancelled, cancel_pending_for_conversation,
}
use customer_service_chat_sy.Tools.Approval.Races.{
  is_decision_on, set_not_awaiting, count-update_where_self,
}
use customer_service_chat_sy.Tools.Approval.Settled.{decided_requests}

-- One operation; a sweep is not interrupted.
pub data AtomicStep (db : Db) : Db → Type 0 where
  decides :
      (tenant_id id by : ℕ) (approve : Bool) (now : ℕ) (commits : Bool)
      → AtomicStep db (decide db tenant_id id by approve now commits).0
  sweeps : (now later : ℕ) → AtomicStep db (sweep_expired db now later).0
  cancels :
      (tenant_id conversation_id now : ℕ)
      → AtomicStep db (cancel_pending_for_conversation db tenant_id conversation_id now).0

pub data AtomicSteps (db : Db) : Db → Type 0 where
  nothing : AtomicSteps db db
  after : {db' db'' : Db} → AtomicSteps db db' → AtomicStep db' db'' → AtomicSteps db db''

has_id_self :
    (x : ToolRequest) (rows : List ToolRequest) → Memᴰ x rows → any (has_id x.id) rows ≡ true
has_id_self x [] m = absurd (Memᴰ.not-nil m)
has_id_self x (y ∷ rows) m = elim (Memᴰ.cases_cons m) [
  | inl here ↦ rw here (ground arith)
  | inr later ↦ ground (arith, has_id_self x rows later)
]

in_retain :
    (p : ToolRequest → Bool) (x : ToolRequest) (xs : List ToolRequest)
    → Memᴰ x xs
    → p x ≡ true
    → Memᴰ x (retain p xs)
in_retain p x [] m h = absurd (Memᴰ.not-nil m)
in_retain p x (y ∷ xs) m h = elim (Memᴰ.cases_cons m) [
  | inl here ↦ rw (rw here at h) (Memᴰ.head here)
  | inr later ↦ elim (Bool-cases (p y)) [
    | inl yes' ↦ rw yes' (Memᴰ.tail (in_retain p x xs later h))
    | inr no' ↦ rw no' (in_retain p x xs later h)
  ]
]

module _ (tenant_id id : ℕ) where
  -- Decisions sent for the request, and its rows that still await one.
  abbrev pub sent_or_open : Db → ℕ
  sent_or_open db =
      count (is_decision_on tenant_id id) db.outbox + count (is_open_row tenant_id id) db.requests

  pub closes :
      (p : ToolRequest → Bool) (f : ToolRequest → ToolRequest) (xs : List ToolRequest)
      → ((x : ToolRequest) → is_open_row tenant_id id (f x) ≡ false)
      → count (is_open_row tenant_id id) (update_where p f xs) ≤ count (is_open_row tenant_id id) xs
  closes p f [] h = omega arith
  closes p f (x ∷ xs) h = ground (arith, h x, closes p f xs h)

  sweep_closes :
      (now : ℕ) (p : ToolRequest → Bool) (f : ToolRequest → ToolRequest) (xs : List ToolRequest)
      → ((x : ToolRequest) → is_open_row tenant_id id (f x) ≡ false)
      → ((x : ToolRequest) → Memᴰ x xs → is_overdue now x ≡ true → p x ≡ true)
      → count (is_decision_on tenant_id id) (map expired_event (retain (is_overdue now) xs))
          + count (is_open_row tenant_id id) (update_where p f xs)
        ≤ count (is_open_row tenant_id id) xs
  sweep_closes now p f [] h covers = omega arith
  sweep_closes now p f (x ∷ xs) h covers =
      let rest = sweep_closes now p f xs h (λ y m. covers y (Memᴰ.tail m)) in
      let here = covers x (Memᴰ.head refl) in ground (arith, h x, rest, here)

  count-decided :
      (db : Db) (t i by : ℕ) (approve commits : Bool) (found : Option ToolRequest)
      → count (is_decision_on tenant_id id) (decided db t i by approve commits found).0.outbox
        ≤ count (is_decision_on tenant_id id) db.outbox
          + (if eqb i id && eqb t tenant_id then 1 else 0)
  count-decided db t i by approve commits none = omega arith
  count-decided db t i by approve false (some row) = omega arith
  count-decided db t i by approve true (some row) =
      let added =
        count-append (is_decision_on tenant_id id) db.outbox (emit_decided t i by approve row []) in
      ground (arith, added)

  settled_same : (db : Db) (found : Option ToolRequest) → (settled db found).0 ≡ db
  settled_same db none = refl
  settled_same db (some row) = refl

  open_closed :
      (db : Db) (t i by : ℕ) (approve : Bool) (now : ℕ)
      → eqb (count (is_open_row t i) db.requests) 0 ≡ false
      → (if eqb i id && eqb t tenant_id then 1 else 0)
          + count
              (is_open_row tenant_id id)
              (update_where (is_open_row t i) (set_decision approve by now) db.requests)
        ≤ count (is_open_row tenant_id id) db.requests
  open_closed db t i by approve now has_open =
      let stays =
        closes (is_open_row t i) (set_decision approve by now) db.requests
          (λ x. ground (arith, set_not_awaiting approve by now x)) in
      elim (Bool-cases (eqb i id && eqb t tenant_id)) [
        | inl same ↦
            let same_id : i ≡ id = ground arith in
            let same_tenant : t ≡ tenant_id = ground arith in
            let gone =
              count-update_where_self (is_open_row t i) (set_decision approve by now) db.requests
                (λ x. ground (arith, set_not_awaiting approve by now x)) in
            let gone' = rw same_tenant at rw same_id at gone in
            let has_open' = rw same_tenant at rw same_id at has_open in
            rw same (rw same_id (rw same_tenant (ground (arith, gone', has_open'))))
        | inr other ↦ rw other (omega (arith, stays))
      ]

  decide_sent :
      (db : Db) (t i by : ℕ) (approve : Bool) (now : ℕ) (commits : Bool)
      → sent_or_open (decide db t i by approve now commits).0 ≤ sent_or_open db
  unfolding decide
  decide_sent db t i by approve now commits =
      elim (Bool-cases (eqb (count (is_open_row t i) db.requests) 0)) [
        | inl closed ↦
            rw closed (rw (settled_same db (find (is_row t i) db.requests)) (omega arith))
        | inr has_open ↦
            let db' : Db = record db {
              requests = update_where (is_open_row t i) (set_decision approve by now) db.requests;
            } in
            let found = find (is_row t i) db'.requests in
            let events = count-decided db' t i by approve commits found in
            let rows = decided_requests db' t i by approve commits found in
            rw has_open
              (rw rows (omega (arith, events, open_closed db t i by approve now has_open)))
      ]

  AtomicStep-sent : {db db' : Db} → AtomicStep db db' → sent_or_open db' ≤ sent_or_open db
  unfolding sweep_expired sweep_select sweep_apply cancel_pending_for_conversation
  AtomicStep-sent {db} (decides t i by approve now commits) =
      decide_sent db t i by approve now commits
  AtomicStep-sent {db} (sweeps now later) =
      let overdue = retain (is_overdue now) db.requests in
      let added =
        count-append (is_decision_on tenant_id id) db.outbox (map expired_event overdue) in
      let closed =
        sweep_closes now (is_swept overdue) (set_expired later) db.requests (λ x. ground arith)
          (λ x m h.
            let listed = has_id_self x overdue (in_retain (is_overdue now) x db.requests m h) in
            ground (arith, listed, h)) in
      omega (arith, added, closed)
  AtomicStep-sent {db} (cancels t c now) =
      omega (arith, closes (is_pending_of t c) (set_cancelled now) db.requests (λ x. ground arith))

  pub AtomicSteps-sent : {db db' : Db} → AtomicSteps db db' → sent_or_open db' ≤ sent_or_open db
  AtomicSteps-sent nothing = omega arith
  AtomicSteps-sent (after before step) =
      omega (arith, AtomicSteps-sent before, AtomicStep-sent step)

  -- When sweeps are not interrupted, at most one decision is ever sent for a request of which at
  -- most one row awaits one and for which none was sent yet, through any decisions, sweeps and
  -- cancellations.
  pub one_decision :
      {db db' : Db}
      → AtomicSteps db db'
      → count (is_decision_on tenant_id id) db.outbox ≡ 0
      → count (is_open_row tenant_id id) db.requests ≤ 1
      → count (is_decision_on tenant_id id) db'.outbox ≤ 1
  one_decision steps none_sent one_row = omega (arith, AtomicSteps-sent steps, none_sent, one_row)
