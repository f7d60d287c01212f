-- ===== src/RateLimit/Resolver.antt =====
-- `BudgetResolver`: backend/crates/shared/cache/src/limiter.rs. Its mutex is never poisoned, since
-- nothing panics under it, so the branches for a poisoned lock are left out.
pub mod Caching
use customer_service_chat_sy.Base.{
  ℕ, ◌+◌, not, List, [], ◌∷◌, ◌++◌, Option, none, some, Text, text_eq, ltb, min, if◌then◌else◌,
  starts_with, lookup, insert, retain,
}
use customer_service_chat_sy.RateLimit.Types.{
  Scope, login, widget_session, widget_message, webhook, tenant_global, scope_eq, as_str, Budget,
  from_secs,
}

pub record CachedOverride : Type 0 where
  pub budget : Option Budget
  pub expires_at : ℕ

pub record BudgetResolver : Type 0 where
  pub cache : List (Text × CachedOverride)
  pub defaults : List (Scope × Budget)
  pub max_override : ℕ

abbrev pub ten_a_minute : Budget
ten_a_minute = record { max_requests = 10; window = from_secs 60 }

abbrev pub six_hundred_a_minute : Budget
six_hundred_a_minute = record { max_requests = 600; window = from_secs 60 }

unfoldable pub new : ℕ → BudgetResolver
new max_override = record {
  cache = [];
  defaults = insert tenant_global six_hundred_a_minute (
      insert webhook six_hundred_a_minute (
        insert widget_message ten_a_minute
          (insert widget_session ten_a_minute (insert login ten_a_minute []))));
  max_override = max_override;
}

unfoldable pub update_default : BudgetResolver → Scope → Budget → BudgetResolver
update_default r scope budget = record r { defaults = insert scope budget r.defaults }

abbrev pub unwrap_or : Option Budget → Budget → Budget
unwrap_or none b = b
unwrap_or (some a) b = a

unfoldable pub default_budget : BudgetResolver → Scope → Budget
default_budget r scope = unwrap_or (lookup scope r.defaults) ten_a_minute

unfoldable pub invalidate_tenant : BudgetResolver → Text → BudgetResolver
invalidate_tenant r tenant_id = record r {
  cache = retain (λ entry. not (starts_with entry.0 tenant_id)) r.cache;
}

unfoldable pub invalidate_all : BudgetResolver → BudgetResolver
invalidate_all r = record r { cache = [] }

-- `format!("{}:{}", tenant_id, scope.as_str())`.
abbrev pub cache_key : Text → Scope → Text
cache_key tenant_id scope = tenant_id ++ b':' ∷ as_str scope

-- The answer of a cache entry that has not expired.
abbrev pub cached_budget : BudgetResolver → Scope → ℕ → Option CachedOverride → Option Budget
cached_budget r scope now none = none
cached_budget r scope now (some entry) =
    if ltb now entry.expires_at
    then some (unwrap_or entry.budget (default_budget r scope))
    else none

abbrev pub capped : ℕ → Budget → Budget
capped max_override b = record b { max_requests = min b.max_requests max_override }

abbrev pub resolved_budget : BudgetResolver → Scope → Option Budget → Budget
resolved_budget r scope none = default_budget r scope
resolved_budget r scope (some b) = capped r.max_override b

-- The clock is read when the cache is read (`now`) and again when it is filled (`later`).
unfoldable pub resolve :
    BudgetResolver
    → Text
    → Scope
    → (Text → Scope → Option Budget)
    → (now later : ℕ) → BudgetResolver × Budget
resolve r tenant_id scope fetcher now later =
    let key = cache_key tenant_id scope in
    elim (cached_budget r scope now (lookup key r.cache)) [
      | some b ↦ (r, b)
      | none ↦
          let override_budget = fetcher tenant_id scope in
          let entry : CachedOverride = record {
            budget = override_budget;
            expires_at = later + from_secs 60;
          } in
          (record r { cache = insert key entry r.cache }, resolved_budget r scope override_budget)
    ]
