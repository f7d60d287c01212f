-- ===== src/RateLimit/Redis/Bounds.antt =====
-- What the limiter over Redis lets through, and what it does without Redis.
use customer_service_chat_sy.Base.{
  ℕ, ◌+◌, ◌-◌, ◌*◌, ◌/◌, ◌%◌, ◌^◌, ◌≤◌, ◌<◌, ◌≡◌, refl, ◌⊎◌, inl, inr, sym, ◌∙◌, true, false, not,
  ◌&&◌, none, some, arith, Text, codes, text_eq, ◌==◌, if◌then◌else◌, Bool-cases,
}
use customer_service_chat_sy.RateLimit.Types.{
  Scope, login, scope_eq, Budget, refused, is_allowed, from_secs, as_secs,
}
use customer_service_chat_sy.RateLimit.Memory
use customer_service_chat_sy.RateLimit.Float64.{Float64, pos}
use customer_service_chat_sy.RateLimit.Redis.{
  RedisRateLimiter, Replies, Decimal, redis_key, previous, count_up, degrade, sliding_window_count,
  weigh, check,
}

module _ (f64 : Float64) (decimal : Decimal) where
  open f64 use {F, one, of_nat, of_i64, add, sub, mul, div, le}

  module _ (n prev elapsed window_secs limit : ℕ) (running : 0 < window_secs)
      (inside : elapsed ≤ window_secs) (n_small : n + prev < 2 ^ 53)
      (limit_small : limit < 2 ^ 32) where
    weighted : F
    weighted = sliding_window_count f64 decimal (pos n) prev elapsed window_secs

    count-le_weighted : le (of_nat n) weighted ≡ true
    unfolding weighted sliding_window_count
    count-le_weighted =
        let (nonneg, below) = f64.share elapsed window_secs running inside in
        rw (f64.of_pos n, weighted, sliding_window_count)
          (f64.le_add n _ (f64.mul_share prev _ nonneg below).0)

    weighted-le_sum : le weighted (of_nat (n + prev)) ≡ true
    unfolding weighted sliding_window_count
    weighted-le_sum =
        let (nonneg, below) = f64.share elapsed window_secs running inside in
        let (from, to) = f64.mul_share prev _ nonneg below in
        rw (f64.of_pos n, weighted, sliding_window_count)
          (rw (← f64.add_exact n prev n_small) (f64.add_mono n _ _ from to))

    within_limit : le weighted (of_nat limit) ≡ true → n ≤ limit
    within_limit h =
        (f64.le_exact n limit (omega arith) (omega arith)).0
          (f64.le_trans _ _ _ count-le_weighted h)

    under_limit : n + prev ≤ limit → le weighted (of_nat limit) ≡ true
    under_limit h =
        f64.le_trans _ _ _ weighted-le_sum
          ((f64.le_exact (n + prev) limit n_small (omega arith)).1 h)

  is_allowed-weigh :
      (l : RedisRateLimiter) (budget : Budget) (n prev elapsed window_secs : ℕ)
      → is_allowed (weigh f64 decimal l budget (pos n) prev elapsed window_secs).1
        ≡ le
            (sliding_window_count f64 decimal (pos n) prev elapsed window_secs)
            (of_nat budget.max_requests)
  unfolding weigh
  is_allowed-weigh l budget n prev elapsed window_secs = ground arith

  check_counted :
      (l : RedisRateLimiter) (redis : Replies) (scope : Scope) (identifier : Text) (budget : Budget)
      (secs now n : ℕ)
      → 0 < as_secs budget.window
      → redis.manager ≡ true
      → redis.incr_expire
          (redis_key decimal scope identifier (secs / as_secs budget.window))
          (as_secs budget.window * 2)
        ≡ some (pos n)
      → check f64 decimal l redis scope identifier budget secs now
        ≡ weigh f64 decimal l budget
            (pos n)
            (previous
              (redis.get (redis_key decimal scope identifier (secs / as_secs budget.window - 1))))
            (secs % as_secs budget.window)
            (as_secs budget.window)
  unfolding check
  check_counted l redis scope identifier budget secs now n running up counted = ground arith

  -- While Redis answers, with `n` requests counted in this window and `prev` in the one before
  -- (so that n + prev < 2 ^ 53): an allowed request is within the limit, and a request that the
  -- two windows together leave room for is allowed.
  pub check-counted_bounds :
      (l : RedisRateLimiter) (redis : Replies) (scope : Scope) (identifier : Text) (budget : Budget)
      (secs now n prev : ℕ)
      → 0 < as_secs budget.window
      → budget.max_requests < 2 ^ 32
      → n + prev < 2 ^ 53
      → redis.manager ≡ true
      → redis.incr_expire
          (redis_key decimal scope identifier (secs / as_secs budget.window))
          (as_secs budget.window * 2)
        ≡ some (pos n)
      → redis.get (redis_key decimal scope identifier (secs / as_secs budget.window - 1))
        ≡ some (some prev)
      → let decision = (check f64 decimal l redis scope identifier budget secs now).1 in
        (is_allowed decision ≡ true → n ≤ budget.max_requests)
        × (n + prev ≤ budget.max_requests → is_allowed decision ≡ true)
  unfolding weighted
  check-counted_bounds l redis scope identifier budget secs now n prev running max_small small up
        counted before =
      let elapsed = secs % as_secs budget.window in
      let window_secs = as_secs budget.window in
      let inside : elapsed ≤ window_secs = omega arith in
      let within =
        within_limit n prev elapsed window_secs budget.max_requests running inside small
          max_small in
      let under =
        under_limit n prev elapsed window_secs budget.max_requests running inside small max_small in
      let meaning = is_allowed-weigh l budget n prev elapsed window_secs in
      rw (check_counted l redis scope identifier budget secs now n running up counted)
        (rw before (λ h. within (sym meaning ∙ h), λ h. meaning ∙ under h))

  pub check_down :
      (l : RedisRateLimiter) (redis : Replies) (scope : Scope) (identifier : Text) (budget : Budget)
      (secs now : ℕ)
      → 0 < as_secs budget.window
      → (redis.manager ≡ false) ⊎ ((key : Text) (ttl : ℕ) → redis.incr_expire key ttl ≡ none)
      → check f64 decimal l redis scope identifier budget secs now
        ≡ degrade l scope identifier budget now
  unfolding check
  check_down l redis scope identifier budget secs now running (inl down) = ground arith
  check_down l redis scope identifier budget secs now running (inr fails) =
      let key = redis_key decimal scope identifier (secs / as_secs budget.window) in
      ground (arith, fails key (as_secs budget.window * 2))

  -- Without Redis a login is refused for thirty seconds, unless the limiter is configured to fail
  -- open; any other request is decided by the store in memory, which counts it. The check is
  -- counted as degraded.
  pub check_unavailable :
      (l : RedisRateLimiter) (redis : Replies) (scope : Scope) (identifier : Text) (budget : Budget)
      (secs now : ℕ)
      → 0 < as_secs budget.window
      → (redis.manager ≡ false) ⊎ ((key : Text) (ttl : ℕ) → redis.incr_expire key ttl ≡ none)
      → let (l', decision) = check f64 decimal l redis scope identifier budget secs now in
        let closed = scope == login && not (l.fail_mode == codes "open") in
        let local = Memory.check l.fallback scope identifier budget now in
        (l'.degraded_total ≡ count_up l.degraded_total)
        × (decision ≡ (if closed then refused (from_secs 30) else local.1))
        × (l'.fallback ≡ (if closed then l.fallback else local.0))
  unfolding degrade
  check_unavailable l redis scope identifier budget secs now running down =
      rw (check_down l redis scope identifier budget secs now running down)
        (elim (Bool-cases (scope == login && not (l.fail_mode == codes "open"))) [
          | inl closed ↦ rw closed (refl, refl, refl)
          | inr passing ↦ rw passing (refl, refl, refl)
        ])
