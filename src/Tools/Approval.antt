-- ===== src/Tools/Approval.antt =====
-- Requests for approval and their rows: backend/crates/modules/tools/src/approval.rs. Of a row
-- the columns are kept that an operation reads or sets. A sweep's two
-- statements are two functions, between which others can come; `decide` is one, with a flag that
-- says whether the transaction after its update commits.
pub mod Settled
pub mod Races
pub mod Events
pub mod Lost
use customer_service_chat_sy.Base.{
  ℕ, Bool, true, false, ◌&&◌, List, [], ◌∷◌, ◌++◌, map, Option, none, some, Text, codes, eqb, ltb,
  text_eq, if◌then◌else◌, Result, ok, err, find, any, retain, count, update_where,
}
use customer_service_chat_sy.Tools.Model.{
  ToolRequestStatus, awaiting_approval, approved, denied, expired, cancelled,
}

pub record ToolRequest : Type 0 where
  pub id : ℕ
  pub tenant_id : ℕ
  pub conversation_id : ℕ
  pub status : ToolRequestStatus
  pub expires_at : Option ℕ
  pub decided_by : Option ℕ
  pub decided_at : Option ℕ

-- The rows of `outbox_events` that are written here.
pub data OutboxEvent : Type 0 where
  tool_decision : (tenant_id conversation_id tool_request_id : ℕ) (outcome : Text) → OutboxEvent
  notification_resolved : (tenant_id tool_request_id resolved_by : ℕ) → OutboxEvent

pub record Db : Type 0 where
  pub requests : List ToolRequest
  pub outbox : List OutboxEvent

abbrev pub is_awaiting : ToolRequestStatus → Bool
is_awaiting awaiting_approval = true
is_awaiting _ = false

abbrev pub has_id : ℕ → ToolRequest → Bool
has_id id r = eqb r.id id

-- `id = $ AND tenant_id = $`.
abbrev pub is_row : (tenant_id id : ℕ) → ToolRequest → Bool
is_row tenant_id id r = eqb r.id id && eqb r.tenant_id tenant_id

abbrev pub is_open_row : (tenant_id id : ℕ) → ToolRequest → Bool
is_open_row tenant_id id r = is_row tenant_id id r && is_awaiting r.status

pub data DecideOutcome : Type 0 where
  applied : ToolRequest → DecideOutcome
  already_settled : ToolRequest → DecideOutcome

pub data SqlError : Type 0 where
  row_not_found transaction_failed : SqlError

abbrev pub decision_status : Bool → ToolRequestStatus
decision_status approve = if approve then approved else denied

abbrev pub decision_text : Bool → Text
decision_text approve = if approve then codes "approved" else codes "denied"

abbrev pub set_decision : Bool → (decided_by now : ℕ) → ToolRequest → ToolRequest
set_decision approve decided_by now r = record r {
  status = decision_status approve;
  decided_by = some decided_by;
  decided_at = some now;
}

-- `emit_tool_decision_in_tx`, then `emit_tool_resolved_in_tx`.
abbrev pub emit_decided :
    (tenant_id id decided_by : ℕ) → Bool → ToolRequest → List OutboxEvent → List OutboxEvent
emit_decided tenant_id id decided_by approve row outbox =
    outbox
    ++ tool_decision tenant_id row.conversation_id id (decision_text approve)
      ∷ notification_resolved tenant_id id decided_by
      ∷ []

-- The transaction after the update: it reads the row, and its commit may fail.
abbrev pub decided :
    Db
    → (tenant_id id decided_by : ℕ) → (approve commits : Bool) → Option ToolRequest
    → Db × Result DecideOutcome SqlError
decided db tenant_id id decided_by approve commits none = (db, err row_not_found)
decided db tenant_id id decided_by approve true (some row) = (
  record db { outbox = emit_decided tenant_id id decided_by approve row db.outbox },
  ok (applied row),
)
decided db tenant_id id decided_by approve false (some row) = (db, err transaction_failed)

abbrev pub settled : Db → Option ToolRequest → Db × Result DecideOutcome SqlError
settled db none = (db, err row_not_found)
settled db (some row) = (db, ok (already_settled row))

-- `decide`. The update stands by itself, before the transaction begins.
unfoldable pub decide :
    Db
    → (tenant_id id decided_by : ℕ) → (approve : Bool) → (now : ℕ) → (commits : Bool)
    → Db × Result DecideOutcome SqlError
decide db tenant_id id decided_by approve now commits =
    if eqb (count (is_open_row tenant_id id) db.requests) 0
    then settled db (find (is_row tenant_id id) db.requests)
    else (let db' = record db {
      requests =
          update_where (is_open_row tenant_id id) (set_decision approve decided_by now) db.requests;
    } in
        decided db' tenant_id id decided_by approve commits
          (find (is_row tenant_id id) db'.requests))

-- `expires_at < now()`, which is not true of NULL.
abbrev pub is_past : Option ℕ → ℕ → Bool
is_past none now = false
is_past (some t) now = ltb t now

abbrev pub is_overdue : ℕ → ToolRequest → Bool
is_overdue now r = is_awaiting r.status && is_past r.expires_at now

-- The first statement of `sweep_expired`, outside its transaction.
unfoldable pub sweep_select : Db → (now : ℕ) → List ToolRequest
sweep_select db now = retain (is_overdue now) db.requests

abbrev pub is_swept : List ToolRequest → ToolRequest → Bool
is_swept rows r = any (has_id r.id) rows && is_awaiting r.status

abbrev pub set_expired : (now : ℕ) → ToolRequest → ToolRequest
set_expired now r = record r { status = expired; decided_at = some now }

abbrev pub expired_event : ToolRequest → OutboxEvent
expired_event row = tool_decision row.tenant_id row.conversation_id row.id (codes "expired")

-- The transaction of `sweep_expired`, for the rows that were read, with the number of rows set.
-- With no rows it is not begun, and does nothing.
unfoldable pub sweep_apply : Db → List ToolRequest → (now : ℕ) → Db × ℕ
sweep_apply db rows now = (
  record {
    requests = update_where (is_swept rows) (set_expired now) db.requests;
    outbox = db.outbox ++ map expired_event rows;
  },
  count (is_swept rows) db.requests,
)

-- `sweep_expired`, when nothing comes between its statements.
unfoldable pub sweep_expired : Db → (now later : ℕ) → Db × ℕ
sweep_expired db now later = sweep_apply db (sweep_select db now) later

abbrev pub is_pending_of : (tenant_id conversation_id : ℕ) → ToolRequest → Bool
is_pending_of tenant_id conversation_id r =
    eqb r.tenant_id tenant_id && (eqb r.conversation_id conversation_id && is_awaiting r.status)

abbrev pub set_cancelled : (now : ℕ) → ToolRequest → ToolRequest
set_cancelled now r = record r { status = cancelled; decided_at = some now }

-- `cancel_pending_for_conversation`, with the ids that it returns.
unfoldable pub cancel_pending_for_conversation :
    Db → (tenant_id conversation_id now : ℕ) → Db × List ℕ
cancel_pending_for_conversation db tenant_id conversation_id now = (
  record db {
    requests =
        update_where (is_pending_of tenant_id conversation_id) (set_cancelled now) db.requests;
  },
  map (λ (r : ToolRequest). r.id) (retain (is_pending_of tenant_id conversation_id) db.requests),
)

unfoldable pub fetch_awaiting_approval_for_conversation :
    Db → (tenant_id conversation_id : ℕ) → List ToolRequest
fetch_awaiting_approval_for_conversation db tenant_id conversation_id =
    retain (is_pending_of tenant_id conversation_id) db.requests
