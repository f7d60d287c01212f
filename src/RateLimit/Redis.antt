-- ===== src/RateLimit/Redis.antt =====
-- `RedisRateLimiter`: backend/crates/shared/cache/src/limiter.rs. The replies of Redis and the two
-- clocks are arguments; metrics and logs are left out.
pub mod Bounds
pub mod Outage
use customer_service_chat_sy.Base.{
  ℕ, ◌+◌, ◌-◌, ◌*◌, ◌/◌, ◌%◌, ◌^◌, Bool, not, ◌&&◌, Option, none, some, ◌∷◌, ◌++◌, Text, codes,
  text_eq, ◌==◌, eqb, if◌then◌else◌,
}
use customer_service_chat_sy.RateLimit.Types.{
  Scope, login, scope_eq, as_str, Budget, Decision, allowed, refused, from_secs, as_secs,
}
use customer_service_chat_sy.RateLimit.Memory
use customer_service_chat_sy.RateLimit.Memory.{Buckets}
use customer_service_chat_sy.RateLimit.Float64.{Float64, I64, pos, negsuc}

abbrev pub is_empty : Text → Bool
is_empty t = t == codes ""

-- `select_identifier`.
unfoldable pub select_identifier : Option Text → Text → Text
select_identifier none source_address = source_address
select_identifier (some id) source_address = if not (is_empty id) then id else source_address

pub record RedisRateLimiter : Type 0 where
  pub fallback : Buckets
  pub degraded_total : ℕ  -- u64
  pub refused_total : ℕ  -- u64
  pub fail_mode : Text

abbrev pub count_up : ℕ → ℕ
count_up n = (n + 1) % 2 ^ 64

-- What Redis would reply: `none` is an error.
pub record Replies : Type 0 where
  pub manager : Bool
  pub incr_expire : Text → ℕ → Option I64
  pub get : Text → Option (Option ℕ)

-- A decimal numeral of the key.
pub record Decimal : Type 0 where
  pub to_string : ℕ → Text

unfoldable pub degrade :
    RedisRateLimiter → Scope → Text → Budget → (now : ℕ) → RedisRateLimiter × Decision
degrade l scope identifier budget now =
    let counted = record l { degraded_total = count_up l.degraded_total } in
    if scope == login && not (l.fail_mode == codes "open")
    then (counted, refused (from_secs 30))
    else (
      record counted { fallback = (Memory.check l.fallback scope identifier budget now).0 },
      (Memory.check l.fallback scope identifier budget now).1,
    )

-- `current_count.max(0) as u32`.
abbrev pub to_u32 : I64 → ℕ
to_u32 (pos n) = n % 2 ^ 32
to_u32 (negsuc n) = 0

-- `Ok(Some(n)) => n, _ => 0`.
abbrev pub previous : Option (Option ℕ) → ℕ
previous (some (some n)) = n
previous _ = 0

-- `rl:{scope}:{identifier}:{epoch}`.
abbrev pub redis_key : Decimal → Scope → Text → ℕ → Text
redis_key d scope identifier epoch =
    codes "rl:" ++ (as_str scope ++ (b':' ∷ (identifier ++ (b':' ∷ d.to_string epoch))))

module _ (f64 : Float64) (decimal : Decimal) where
  open f64 use {F, one, of_nat, of_i64, add, sub, mul, div, le}

  unfoldable pub sliding_window_count : I64 → (previous elapsed window_secs : ℕ) → F
  sliding_window_count current prev elapsed window_secs =
      let overlap = sub one (div (of_nat elapsed) (of_nat window_secs)) in
      add (of_i64 current) (mul (of_nat prev) overlap)

  -- The end of `check`, when Redis has counted the request.
  unfoldable pub weigh :
      RedisRateLimiter → Budget → I64 → (prev elapsed window_secs : ℕ) → RedisRateLimiter × Decision
  weigh l budget current prev elapsed window_secs =
      let remaining_secs = window_secs - elapsed in
      if le (sliding_window_count current prev elapsed window_secs) (of_nat budget.max_requests)
      then (l, allowed (budget.max_requests - to_u32 current) (from_secs remaining_secs))
      else (
        record l { refused_total = count_up l.refused_total },
        refused (from_secs remaining_secs),
      )

  -- `secs` is the time of day since the epoch, `now` the monotonic clock of the store in memory.
  unfoldable pub check :
      RedisRateLimiter
      → Replies
      → Scope
      → Text
      → Budget
      → (secs now : ℕ) → RedisRateLimiter × Decision
  check l redis scope identifier budget secs now =
      let window_secs = as_secs budget.window in
      let epoch = secs / window_secs in
      let ttl = window_secs * 2 in
      let current_count = redis.incr_expire (redis_key decimal scope identifier epoch) ttl in
      let prev = previous (redis.get (redis_key decimal scope identifier (epoch - 1))) in
      if eqb window_secs 0
      then (l, refused (from_secs 1))
      else if not redis.manager
      then degrade l scope identifier budget now
      else elim current_count [
        | none ↦ degrade l scope identifier budget now
        | some current ↦ weigh l budget current prev (secs % window_secs) window_secs
      ]
