-- ===== src/Billing.antt =====
-- May the assistant answer for this tenant? backend/crates/modules/billing/src/enforcement.rs, with
-- the queries that it uses of queries.rs. The calendar of the crate chrono is a parameter.
pub mod Enforcement
mod Examples
use customer_service_chat_sy.Base.{
  ℕ, ◌+◌, Bool, true, false, ◌&&◌, ◌||◌, List, [], ◌∷◌, Option, none, some, Text, codes, text_eq,
  ◌==◌, eqb, ltb, leb, find, count, if◌then◌else◌, Result, ok, err,
}
use customer_service_chat_sy.RateLimit.Float64.{I64, pos, negsuc}

-- `PlanDto`, of which the name, the price and the status are left out.
pub record Plan : Type 0 where
  pub id : ℕ
  pub token_allowance : Option I64
  pub conversation_allowance : Option I64
  pub is_default : Bool

pub record Subscription : Type 0 where
  pub tenant_id : ℕ
  pub plan_id : ℕ
  pub status : Text

-- A row of `ai_usage_records`, and one of `conversations`.
pub record UsageRecord : Type 0 where
  pub tenant_id : ℕ
  pub input_tokens : Option ℕ
  pub output_tokens : Option ℕ
  pub created_at : ℕ

pub record Conversation : Type 0 where
  pub tenant_id : ℕ
  pub created_at : ℕ
  pub deleted : Bool

pub record Ledger : Type 0 where
  pub plans : List Plan
  pub subscriptions : List Subscription
  pub usage : List UsageRecord
  pub conversations : List Conversation

pub data SqlError : Type 0 where
  row_not_found : SqlError

-- Year and month of a time, and midnight of a day.
pub record Calendar : Type 0 where
  pub year : ℕ → ℕ
  pub month : ℕ → ℕ
  pub midnight : (year month day : ℕ) → ℕ

abbrev pub current_period : Calendar → ℕ → ℕ × ℕ
current_period c now = (
  c.midnight (c.year now) (c.month now) 1,
  if eqb (c.month now) 12
      then c.midnight (c.year now + 1) 1 1
      else c.midnight (c.year now) (c.month now + 1) 1,
)

abbrev plan_of_subscription : Ledger → Option Subscription → Option (Plan × Text)
plan_of_subscription l none = none
plan_of_subscription l (some s) = elim (find (λ (p : Plan). eqb p.id s.plan_id) l.plans) [
  | none ↦ none
  | some p ↦ some (p, s.status)
]

abbrev or_default : Option (Plan × Text) → Option Plan → Result (Plan × Text) SqlError
or_default (some row) default = ok row
or_default none (some default) = ok (default, codes "active")
or_default none none = err row_not_found

-- The plan of the tenant's subscription, or else the default plan, as if subscribed to.
unfoldable pub effective_plan : Ledger → ℕ → Result (Plan × Text) SqlError
effective_plan l tenant_id =
    or_default
      (plan_of_subscription l
        (find (λ (s : Subscription). eqb s.tenant_id tenant_id) l.subscriptions))
      (find (λ (p : Plan). p.is_default) l.plans)

abbrev in_period : (start end created_at : ℕ) → Bool
in_period start end created_at = leb start created_at && ltb created_at end

-- `COALESCE(n, 0)`.
abbrev or_zero : Option ℕ → ℕ
or_zero none = 0
or_zero (some n) = n

abbrev tokens_of : (tenant_id start end : ℕ) → List UsageRecord → ℕ
tokens_of tenant_id start end [] = 0
tokens_of tenant_id start end (r ∷ rs) =
    let rest = tokens_of tenant_id start end rs in
    if eqb r.tenant_id tenant_id && in_period start end r.created_at
    then or_zero r.input_tokens + or_zero r.output_tokens + rest
    else rest

unfoldable pub token_usage : Ledger → (tenant_id start end : ℕ) → ℕ
token_usage l tenant_id start end = tokens_of tenant_id start end l.usage

abbrev counts : (tenant_id start end : ℕ) → Conversation → Bool
counts tenant_id start end c =
    eqb c.tenant_id tenant_id
    && (in_period start end c.created_at && (if c.deleted then false else true))

unfoldable pub conversation_usage : Ledger → (tenant_id start end : ℕ) → ℕ
conversation_usage l tenant_id start end = count (counts tenant_id start end) l.conversations

pub data PauseReason : Type 0 where
  subscription_status token_limit conversation_limit : PauseReason

pub record EnforcementDecision : Type 0 where
  pub allowed : Bool
  pub reason : Option PauseReason

abbrev pub pause : PauseReason → EnforcementDecision
pause reason = record { allowed = false; reason = some reason }

-- `usage >= limit`, for a usage that is not negative.
abbrev pub reached : Option I64 → ℕ → Bool
reached none usage = false
reached (some (pos limit)) usage = leb limit usage
reached (some (negsuc limit)) usage = true

abbrev pub is_paused : Text → Bool
is_paused status = status == codes "past_due" || status == codes "canceled"

-- The rest of `check`, for the plan and the status.
abbrev pub decide_for : Ledger → (tenant_id start end : ℕ) → Plan × Text → EnforcementDecision
decide_for l tenant_id start end (plan, status) =
    if is_paused status
    then pause subscription_status
    else if reached plan.token_allowance (token_usage l tenant_id start end)
    then pause token_limit
    else if reached plan.conversation_allowance (conversation_usage l tenant_id start end)
    then pause conversation_limit
    else record { allowed = true; reason = none }

abbrev decide_found :
    Ledger
    → (tenant_id start end : ℕ) → Result (Plan × Text) SqlError
    → Result EnforcementDecision SqlError
decide_found l tenant_id start end (err e) = err e
decide_found l tenant_id start end (ok row) = ok (decide_for l tenant_id start end row)

-- `check`. The advisory lock only orders the checks of one tenant.
unfoldable pub check : Calendar → Ledger → (tenant_id now : ℕ) → Result EnforcementDecision SqlError
check c l tenant_id now =
    let (start, end) = current_period c now in
    decide_found l tenant_id start end (effective_plan l tenant_id)
