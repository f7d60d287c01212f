-- ===== src/RateLimit/Resolver/Caching.antt =====
-- What the cache of overrides answers.
use customer_service_chat_sy.Base.{
  ℕ, ◌+◌, ◌<◌, ◌≡◌, refl, Option, none, some, List, [], ◌∷◌, arith, Text, text_eq, not, starts_with,
  starts_with-append, lookup, insert, lookup-insert_self, retain, ap, ◌∙◌, text_beq_iff, lt→ltb,
}
use customer_service_chat_sy.RateLimit.Types.{Scope, as_str, Budget, from_secs}
use customer_service_chat_sy.RateLimit.Resolver.{
  CachedOverride, BudgetResolver, invalidate_tenant, cache_key, capped, default_budget,
  resolved_budget, resolve,
}

module _ (r : BudgetResolver) (tenant_id : Text) (scope : Scope)
    (fetcher : Text → Scope → Option Budget) (now later : ℕ) where
  resolve_miss :
      lookup (cache_key tenant_id scope) r.cache ≡ none
      → resolve r tenant_id scope fetcher now later ≡ (
        record r {
          cache =
              insert
                (cache_key tenant_id scope)
                (record { budget = fetcher tenant_id scope; expires_at = later + from_secs 60 })
                r.cache;
        },
        resolved_budget r scope (fetcher tenant_id scope),
      )
  unfolding resolve
  resolve_miss miss = rw (miss, resolve)

  resolve_hit :
      {entry : CachedOverride} {b : Budget}
      → lookup (cache_key tenant_id scope) r.cache ≡ some entry
      → entry.budget ≡ some b
      → now < entry.expires_at
      → (resolve r tenant_id scope fetcher now later).1 ≡ b
  unfolding resolve
  resolve_hit {entry} {b} hit found soon =
      rw (hit, resolve) (rw (lt→ltb now entry.expires_at soon) (ground arith))

-- With nothing in the cache an override is capped; but for sixty seconds from then on the cache
-- answers with the override as it was fetched, whatever the cap and the table say.
pub resolve-resolve_uncapped :
    (r : BudgetResolver) (tenant_id : Text) (scope : Scope)
    (fetcher fetcher' : Text → Scope → Option Budget) (b : Budget) (now later now' later' : ℕ)
    → lookup (cache_key tenant_id scope) r.cache ≡ none
    → fetcher tenant_id scope ≡ some b
    → now' < later + from_secs 60
    → let (r', first) = resolve r tenant_id scope fetcher now later in
      (first ≡ capped r.max_override b) × ((resolve r' tenant_id scope fetcher' now' later').1 ≡ b)
unfolding resolve
resolve-resolve_uncapped r tenant_id scope fetcher fetcher' b now later now' later' miss fetched
      soon =
    rw (resolve_miss r tenant_id scope fetcher now later miss) (
      ap (resolved_budget r scope) fetched,
      resolve_hit _ tenant_id scope fetcher' now' later'
          (lookup-insert_self (cache_key tenant_id scope) _ r.cache) fetched soon,
    )

lookup-retain_forgotten :
    (tenant_id : Text) (scope : Scope) (cache : List (Text × CachedOverride))
    → lookup
        (cache_key tenant_id scope)
        (retain (λ entry. not (starts_with entry.0 tenant_id)) cache)
      ≡ none
unfolding lookup
lookup-retain_forgotten tenant_id scope [] = refl
lookup-retain_forgotten tenant_id scope ((k, v) ∷ cache) = ground (
  arith,
  lookup-retain_forgotten tenant_id scope cache,
  starts_with-append tenant_id (b':' ∷ as_str scope),
  text_beq_iff k (cache_key tenant_id scope),
)

-- After the tenant's entries are dropped, a budget is fetched, and is at most the cap, or it is the
-- default.
pub resolve-invalidate_tenant :
    (r : BudgetResolver) (tenant_id : Text) (scope : Scope) (fetcher : Text → Scope → Option Budget)
    (now later : ℕ)
    → (resolve (invalidate_tenant r tenant_id) tenant_id scope fetcher now later).1
      ≡ resolved_budget r scope (fetcher tenant_id scope)
unfolding resolve invalidate_tenant default_budget
resolve-invalidate_tenant r tenant_id scope fetcher now later =
    ap (λ answer. answer.1)
      (resolve_miss (invalidate_tenant r tenant_id) tenant_id scope fetcher now later
        (lookup-retain_forgotten tenant_id scope r.cache))
    ∙ ground arith
