-- ===== src/RateLimit/Redis/Outage.antt =====
-- What the limiter lets through in one window while Redis is down.
use customer_service_chat_sy.Base.{
  ℕ, ◌+◌, ◌<◌, ◌≡◌, ◌⊎◌, Bool, false, not, ◌&&◌, List, [], ◌∷◌, none, Text, codes, text_eq, ◌==◌,
  if◌then◌else◌,
}
use customer_service_chat_sy.RateLimit.Types.{Scope, login, scope_eq, is_allowed, as_secs, Decision}
use customer_service_chat_sy.RateLimit.Memory.Window.{Request, is_for}
use customer_service_chat_sy.RateLimit.Float64.{Float64}
use customer_service_chat_sy.RateLimit.Redis.{RedisRateLimiter, Replies, Decimal, check}

-- A request, with the time of day and what Redis replies to it.
pub record Attempt : Type 0 where
  pub request : Request
  pub secs : ℕ
  pub redis : Replies

-- Redis is not reached, or does not count; the window has a second at least.
abbrev pub IsDown : Attempt → Type 0
IsDown a =
    (0 < as_secs a.request.budget.window)
    × ((a.redis.manager ≡ false) ⊎ ((key : Text) (ttl : ℕ) → a.redis.incr_expire key ttl ≡ none))

-- Requests of the scope are refused while Redis is down.
abbrev pub is_closed : (fail_mode : Text) → Scope → Bool
is_closed fail_mode scope = scope == login && not (fail_mode == codes "open")

abbrev passing : (fail_mode : Text) → List Attempt → List Request
passing mode [] = []
passing mode (a ∷ rest) =
    if is_closed mode a.request.scope then passing mode rest else a.request ∷ passing mode rest

abbrev pub requests_of : List Attempt → List Request
requests_of [] = []
requests_of (a ∷ rest) = a.request ∷ requests_of rest

module _ (f64 : Float64) (decimal : Decimal) where
  abbrev pub limit_by : RedisRateLimiter → Attempt → RedisRateLimiter × Decision
  limit_by l a =
      check f64 decimal l a.redis a.request.scope a.request.identifier a.request.budget a.secs
        a.request.now

  -- How many of the requests of the scope and identifier are allowed.
  unfoldable pub allowed_by : Scope → Text → RedisRateLimiter → List Attempt → ℕ
  allowed_by scope identifier l [] = 0
  allowed_by scope identifier l (a ∷ rest) =
      (if is_for scope identifier a.request && is_allowed (limit_by l a).1 then 1 else 0)
      + allowed_by scope identifier (limit_by l a).0 rest
