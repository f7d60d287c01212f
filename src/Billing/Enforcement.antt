-- ===== src/Billing/Enforcement.antt =====
-- When the assistant may answer.
use customer_service_chat_sy.Base.{
  ℕ, ◌<◌, Bool, true, false, ◌≡◌, ◌≢◌, refl, ◌↔◌, Option, none, some, arith, Text, codes,
  text_beq_iff, ok, if◌then◌else◌,
}
use customer_service_chat_sy.RateLimit.Float64.{I64, pos, negsuc}
use customer_service_chat_sy.Billing.{
  Plan, Ledger, Calendar, current_period, effective_plan, token_usage, conversation_usage,
  EnforcementDecision, pause, subscription_status, token_limit, conversation_limit, reached,
  is_paused, decide_for, check,
}

-- Below the limit; a negative limit leaves no room, and no limit leaves all.
abbrev pub Under : Option I64 → ℕ → Type 0
Under none usage = Unit
Under (some (pos limit)) usage = usage < limit
Under (some (negsuc limit)) usage = ⊥

reached_iff : (limit : Option I64) (usage : ℕ) → (reached limit usage ≡ false) ↔ Under limit usage
reached_iff none usage = (λ h. tt, λ h. refl)
reached_iff (some (pos limit)) usage = ground arith
reached_iff (some (negsuc limit)) usage = (λ h. absurd (ground arith), λ h. absurd h)

running_iff :
    (status : Text)
    → (is_paused status ≡ false) ↔ ((status ≢ codes "past_due") × (status ≢ codes "canceled"))
running_iff status =
    ground (arith, text_beq_iff status (codes "past_due"), text_beq_iff status (codes "canceled"))

true-not-false : ¬ (true ≡ false)
true-not-false h = ground arith

-- Three gates in a row, each with what it lets through.
three_gates :
    {P Q R : Type 0} (a b c : Bool)
    → (a ≡ false) ↔ P
    → (b ≡ false) ↔ Q
    → (c ≡ false) ↔ R
    → let d =
        if a
        then pause subscription_status
        else if b
        then pause token_limit
        else if c
        then pause conversation_limit
        else (record { allowed = true; reason = none }) in
      ((d.allowed ≡ true) ↔ (P × Q × R)) × ((d.allowed ≡ true) ↔ (d.reason ≡ none))
three_gates true b c p q r =
    ((λ h. absurd (ground arith), λ (x, y, z). absurd (true-not-false (p.1 x))), ground arith)
three_gates false true c p q r =
    ((λ h. absurd (ground arith), λ (x, y, z). absurd (true-not-false (q.1 y))), ground arith)
three_gates false false true p q r =
    ((λ h. absurd (ground arith), λ (x, y, z). absurd (true-not-false (r.1 z))), ground arith)
three_gates false false false p q r =
    ((λ h. (p.0 refl, q.0 refl, r.0 refl), λ x. refl), (λ h. refl, λ h. refl))

-- With an effective plan, the assistant may answer exactly when the subscription is neither past
-- due nor canceled and this month's tokens and conversations are below the plan's allowances; a
-- refusal always has a reason, and permission never.
pub check-allowed_iff :
    (c : Calendar) (l : Ledger) (tenant_id now : ℕ) (plan : Plan) (status : Text)
    (decision : EnforcementDecision)
    → effective_plan l tenant_id ≡ ok (plan, status)
    → check c l tenant_id now ≡ ok decision
    → let (start, end) = current_period c now in
      ((decision.allowed ≡ true) ↔ (
        ((status ≢ codes "past_due") × (status ≢ codes "canceled"))
        × Under plan.token_allowance (token_usage l tenant_id start end)
        × Under plan.conversation_allowance (conversation_usage l tenant_id start end)))
      × ((decision.allowed ≡ true) ↔ (decision.reason ≡ none))
unfolding check
check-allowed_iff c l tenant_id now plan status decision found checked =
    let (start, end) = current_period c now in
    let opened = rw found at checked in
    let paused = running_iff status in
    let tokens = reached_iff plan.token_allowance (token_usage l tenant_id start end) in
    let conversations =
      reached_iff plan.conversation_allowance (conversation_usage l tenant_id start end) in
    let same : decide_for l tenant_id start end (plan, status) ≡ decision = ground arith in
    rw (← same) (
      three_gates (is_paused status)
        (reached plan.token_allowance (token_usage l tenant_id start end))
        (reached plan.conversation_allowance (conversation_usage l tenant_id start end)) paused
        tokens conversations)
