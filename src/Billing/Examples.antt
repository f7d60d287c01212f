-- ===== src/Billing/Examples.antt =====
-- A tenant within its allowance, and the theorem on it.
use customer_service_chat_sy.Base.{◌*◌, ◌≡◌, ◌≢◌, refl, ◌↔◌, true, [], ◌∷◌, none, some, codes, ok}
use customer_service_chat_sy.RateLimit.Float64.{pos}
use customer_service_chat_sy.Billing.{
  Plan, Ledger, Calendar, EnforcementDecision, current_period, effective_plan, token_usage,
  conversation_usage, check,
}
use customer_service_chat_sy.Billing.Enforcement.{Under, check-allowed_iff}

-- Months of thirty days, from month 1 of year 0.
abbrev calendar : Calendar
calendar = record { year = λ t. 2026; month = λ t. 11; midnight = λ year month day. month * 30 }

abbrev starter : Plan
starter = record {
  id = 5;
  token_allowance = some (pos 100);
  conversation_allowance = none;
  is_default = true;
}

abbrev ledger : Ledger
ledger = record {
  plans = starter ∷ [];
  subscriptions = (record { tenant_id = 1; plan_id = 5; status = codes "active" }) ∷ [];
  usage =
      (record { tenant_id = 1; input_tokens = some 60; output_tokens = some 30; created_at = 340 })
      ∷ [];
  conversations = [];
}

abbrev permitted : EnforcementDecision
permitted = record { allowed = true; reason = none }

is_permitted : check calendar ledger 1 340 ≡ ok permitted
unfolding check effective_plan token_usage conversation_usage
is_permitted = refl

has_plan : effective_plan ledger 1 ≡ ok (starter, codes "active")
unfolding effective_plan
has_plan = refl

check-allowed_iff_example :
    let (start, end) = current_period calendar 340 in
    ((true ≡ true) ↔ (
      ((codes "active" ≢ codes "past_due") × (codes "active" ≢ codes "canceled"))
      × Under (some (pos 100)) (token_usage ledger 1 start end)
      × Under none (conversation_usage ledger 1 start end)))
    × ((permitted.allowed ≡ true) ↔ (permitted.reason ≡ none))
check-allowed_iff_example =
    check-allowed_iff calendar ledger 1 340 starter (codes "active") permitted has_plan is_permitted
