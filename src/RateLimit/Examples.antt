-- ===== src/RateLimit/Examples.antt =====
-- Runs of the limiters, and the theorems at concrete inputs.
use customer_service_chat_sy.Base.{
  ℕ, ◌+◌, ◌≤◌, min, ◌≡◌, refl, true, false, List, [], ◌∷◌, Option, none, some, arith, Text, codes,
  text_eq, lookup,
}
use customer_service_chat_sy.RateLimit.Types.{
  Scope, login, webhook, scope_eq, Budget, refused, is_allowed, bucket_key, from_secs,
}
use customer_service_chat_sy.RateLimit.Memory
use customer_service_chat_sy.RateLimit.Memory.{Buckets}
use customer_service_chat_sy.RateLimit.Memory.Window.{
  Request, requests_for, allowed_for, allowed-eq-min,
}
use customer_service_chat_sy.RateLimit.Resolver.{BudgetResolver, capped, resolve}
use customer_service_chat_sy.RateLimit.Resolver.Caching.{resolve-resolve_uncapped}
use customer_service_chat_sy.RateLimit.Float64.{naturals, pos}
use customer_service_chat_sy.RateLimit.Redis.{degrade, RedisRateLimiter, Replies, Decimal, check}
use customer_service_chat_sy.RateLimit.Redis.Bounds.{check-counted_bounds}
use customer_service_chat_sy.RateLimit.Redis.Outage.{Attempt}

abbrev two_a_minute : Budget
two_a_minute = record { max_requests = 2; window = from_secs 60 }

abbrev at : Scope → ℕ → Request
at scope seconds = record {
  scope = scope;
  identifier = codes "10.0.0.7";
  budget = two_a_minute;
  now = from_secs seconds;
}

abbrev traffic : List Request
traffic = at login 5 ∷ at webhook 6 ∷ at login 9 ∷ at login 64 ∷ []

allowed-eq-min_example :
    allowed_for login (codes "10.0.0.7") Memory.new traffic
    ≡ min (requests_for login (codes "10.0.0.7") traffic) 2
unfolding requests_for lookup
allowed-eq-min_example =
    allowed-eq-min (from_secs 5) (from_secs 60) 2 login (codes "10.0.0.7") traffic Memory.new tt
      refl (omega arith) (omega arith)

abbrev short : Request
short = record {
  scope = webhook;
  identifier = codes "hook";
  budget = record { max_requests = 5; window = from_secs 1 };
  now = from_secs 30;
}

abbrev used_up : Buckets
used_up = (bucket_key login (codes "10.0.0.7"), (2, from_secs 5)) ∷ []

abbrev generous : Budget
generous = record { max_requests = 5000; window = from_secs 60 }

abbrev override_table : Text → Scope → Option Budget
override_table tenant_id scope = some generous

abbrev resolver : BudgetResolver
resolver = record { cache = []; defaults = []; max_override = 1000 }

resolve-resolve_uncapped_example :
    let (r', first) = resolve resolver (codes "acme") webhook override_table 0 0 in
    (first ≡ capped 1000 generous)
    × ((resolve r' (codes "acme") webhook override_table (from_secs 1) (from_secs 1)).1 ≡ generous)
unfolding lookup
resolve-resolve_uncapped_example =
    resolve-resolve_uncapped resolver (codes "acme") webhook override_table override_table generous
      0 0 (from_secs 1) (from_secs 1) refl refl (omega arith)

abbrev unary : Decimal
unary = record { to_string = λ n. n ∷ [] }

abbrev limiter : RedisRateLimiter
limiter = record {
  fallback = [];
  degraded_total = 0;
  refused_total = 0;
  fail_mode = codes "auth_closed";
}

abbrev third : Replies
third = record { manager = true; incr_expire = λ key ttl. some (pos 3); get = λ key. some (some 1) }

abbrev down : Replies
down = record { manager = false; incr_expire = λ key ttl. none; get = λ key. none }

check-counted_bounds_example :
    let decision = (check naturals unary limiter third webhook (codes "h") generous 100 0).1 in
    (is_allowed decision ≡ true → 3 ≤ 5000) × (3 + 1 ≤ 5000 → is_allowed decision ≡ true)
check-counted_bounds_example =
    check-counted_bounds naturals unary limiter third webhook (codes "h") generous 100 0 3 1
      (omega arith) (omega arith) (omega arith) refl refl refl

abbrev attempt : Scope → ℕ → Attempt
attempt scope seconds = record { request = at scope seconds; secs = 1000 + seconds; redis = down }

abbrev outage : List Attempt
outage = attempt webhook 5 ∷ attempt login 6 ∷ attempt webhook 9 ∷ attempt webhook 64 ∷ []

logins_refused_without_redis :
    (check naturals unary limiter down login (codes "h") generous 100 0).1 ≡ refused (from_secs 30)
unfolding check degrade
logins_refused_without_redis = refl
