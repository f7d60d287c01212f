-- ===== src/RateLimit/Types.antt =====
-- `Scope`, `Budget` and `Decision` of backend/crates/shared/kernel/src/rate_limit.rs, and the key
-- of a bucket.
use customer_service_chat_sy.Base.{
  ℕ, ◌*◌, ◌/◌, Bool, ◌≡◌, ◌↔◌, ◌∷◌, ◌++◌, Eq, eqb, Text, codes, arith, true, false,
}

pub data Scope : Type 0 where
  login widget_session widget_message webhook tenant_global : Scope

-- `Scope::as_str`.
abbrev pub as_str : Scope → Text
as_str login = codes "login"
as_str widget_session = codes "widget_session"
as_str widget_message = codes "widget_message"
as_str webhook = codes "webhook"
as_str tenant_global = codes "tenant_global"

abbrev index : Scope → ℕ
index login = 0
index widget_session = 1
index widget_message = 2
index webhook = 3
index tenant_global = 4

index→≡ : (a b : Scope) → eqb (index a) (index b) ≡ true → a ≡ b
index→≡ a b h = ground arith

index_self : (a b : Scope) → a ≡ b → eqb (index a) (index b) ≡ true
index_self a b h = ground arith

abbrev pub scope_beq : Scope → Scope → Bool
scope_beq a b = eqb (index a) (index b)

pub scope_beq_iff : (a b : Scope) → (scope_beq a b ≡ true) ↔ (a ≡ b)
scope_beq_iff a b = (index→≡ a b, index_self a b)

instance abbrev pub scope_eq : Eq Scope
scope_eq = record { equal = scope_beq; equal_iff = scope_beq_iff }

-- A `Duration` and an `Instant` count nanoseconds.
abbrev pub from_secs : ℕ → ℕ
from_secs n = n * 1_000_000_000

abbrev pub as_secs : ℕ → ℕ
as_secs d = d / 1_000_000_000

pub record Budget : Type 0 where
  pub max_requests : ℕ  -- u32
  pub window : ℕ

pub data Decision : Type 0 where
  allowed : (remaining reset_after : ℕ) → Decision
  refused : (retry_after : ℕ) → Decision
  degraded : (local_decision : Decision) → Decision

abbrev pub is_allowed : Decision → Bool
is_allowed (allowed remaining reset_after) = true
is_allowed _ = false

-- `format!("{}/{}", scope.as_str(), identifier)`.
unfoldable pub bucket_key : Scope → Text → Text
bucket_key scope identifier = as_str scope ++ b'/' ∷ identifier

-- Different scopes and identifiers have different keys.
pub bucket_key_injective :
    (s s' : Scope) (i i' : Text) → bucket_key s i ≡ bucket_key s' i' → (s ≡ s') × (i ≡ i')
unfolding bucket_key
bucket_key_injective s s' i i' h = ground arith
