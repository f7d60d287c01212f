-- ===== src/RateLimit/Memory.antt =====
-- `InMemoryRateLimitStore`: backend/crates/shared/kernel/src/rate_limit.rs. The mutex makes a
-- check atomic, so the store is passed from check to check.
pub mod Window
use customer_service_chat_sy.Base.{
  ℕ, ◌+◌, ◌-◌, ◌%◌, ◌^◌, Bool, List, [], Option, none, some, Text, text_eq, ltb, leb, if◌then◌else◌,
  lookup, insert, retain,
}
use customer_service_chat_sy.RateLimit.Types.{Scope, Budget, Decision, allowed, refused, bucket_key}

-- Key, then the number of requests and when the window started.
abbrev pub Buckets : Type 0
Buckets = List (Text × (ℕ × ℕ))

abbrev pub new : Buckets
new = []

-- `duration_since` stops at 0.
abbrev pub is_live : Budget → ℕ → Text × (ℕ × ℕ) → Bool
is_live budget now (key, (count, started)) = ltb (now - started) budget.window

abbrev pub or_insert : Option (ℕ × ℕ) → ℕ → ℕ × ℕ
or_insert none now = (0, now)
or_insert (some entry) now = entry

abbrev pub reset_if_over : Budget → ℕ → ℕ × ℕ → ℕ × ℕ
reset_if_over budget now entry = if leb budget.window (now - entry.1) then (0, now) else entry

-- `entry.0 += 1` on a u32.
abbrev pub bump : ℕ × ℕ → ℕ × ℕ
bump entry = ((entry.0 + 1) % 2 ^ 32, entry.1)

-- The decision for the counted entry; `saturating_sub` is `-`.
abbrev pub decide : Budget → ℕ → ℕ × ℕ → Decision
decide budget now entry =
    if leb entry.0 budget.max_requests
    then allowed (budget.max_requests - entry.0) (budget.window - (now - entry.1))
    else refused (budget.window - (now - entry.1))

unfoldable pub check : Buckets → Scope → Text → Budget → ℕ → Buckets × Decision
check buckets scope identifier budget now =
    let key = bucket_key scope identifier in
    let kept = retain (is_live budget now) buckets in
    let entry = bump (reset_if_over budget now (or_insert (lookup key kept) now)) in
    (insert key entry kept, decide budget now entry)
