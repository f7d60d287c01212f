-- ===== src/RateLimit/Memory/Window.antt =====
-- A fixed window: of the requests of one scope and identifier that fall into it, as many are
-- allowed as the budget says, whatever else the store serves meanwhile.
use customer_service_chat_sy.Base.{
  ℕ, suc, ◌+◌, ◌-◌, ◌%◌, ◌^◌, ◌≤◌, ◌<◌, min, ◌≡◌, refl, ap, ◌∙◌, ◌⊎◌, inl, inr, Bool, true, false,
  ◌&&◌, List, [], ◌∷◌, Option, none, some, arith, Text, text_eq, ◌==◌, ==→≡, ==_refl, if◌then◌else◌,
  leb, Bool-cases, Bool-ext, All, lookup, lookup-insert_self, lookup-insert_ne, retain, Distinct,
  keep, lookup-retain, retain-Distinct, insert-Distinct,
}
use mathlib.Core.Bool.{and-eq-true_iff}
use customer_service_chat_sy.RateLimit.Types.{
  Scope, scope_eq, Budget, Decision, is_allowed, bucket_key, bucket_key_injective,
}
use customer_service_chat_sy.RateLimit.Memory.{Buckets, is_live, or_insert, reset_if_over, check}

pub record Request : Type 0 where
  pub scope : Scope
  pub identifier : Text
  pub budget : Budget
  pub now : ℕ

abbrev pub is_for : Scope → Text → Request → Bool
is_for scope identifier r = scope == r.scope && identifier == r.identifier

abbrev pub serve : Buckets → Request → Buckets × Decision
serve buckets r = check buckets r.scope r.identifier r.budget r.now

-- How many requests of the scope and identifier come, and how many of them are allowed.
unfoldable pub requests_for : Scope → Text → List Request → ℕ
requests_for scope identifier [] = 0
requests_for scope identifier (r ∷ rs) =
    (if is_for scope identifier r then 1 else 0) + requests_for scope identifier rs

unfoldable pub allowed_for : Scope → Text → Buckets → List Request → ℕ
allowed_for scope identifier buckets [] = 0
allowed_for scope identifier buckets (r ∷ rs) =
    (if is_for scope identifier r && is_allowed (serve buckets r).1 then 1 else 0)
    + allowed_for scope identifier (serve buckets r).0 rs

-- The requests use windows of one length, which start no earlier than `start` and are not over;
-- those of the scope and identifier may each time `limit` requests.
abbrev pub InWindow : Scope → Text → (start window limit : ℕ) → Request → Type 0
InWindow scope identifier start window limit r =
    (start ≤ r.now)
    × (r.now < start + window)
    × (r.budget.window ≡ window)
    × (is_for scope identifier r ≡ true → r.budget.max_requests ≡ limit)

-- `c` requests of the key were counted in this window.
abbrev Counted : Text → (start window c : ℕ) → Buckets → Type 0
Counted key start window c buckets =
    Distinct buckets
    × ((lookup key buckets ≡ none) × (c ≡ 0)
        ⊎ ((s : ℕ) × (lookup key buckets ≡ some (c, s)) × (start ≤ s)))

module _ (r : Request) where
  kept_other :
      (key : Text) (buckets : Buckets) (o : Option (ℕ × ℕ))
      → (bucket_key r.scope r.identifier == key) ≡ false
      → Distinct buckets
      → lookup key buckets ≡ o
      → lookup key (serve buckets r).0 ≡ keep (is_live r.budget r.now) key o
  unfolding check
  kept_other key buckets o e d found =
      lookup-insert_ne _ key _ _ e
      ∙ lookup-retain (is_live r.budget r.now) key buckets d
      ∙ ap (keep (is_live r.budget r.now) key) found

  serve-Distinct : (buckets : Buckets) → Distinct buckets → Distinct (serve buckets r).0
  unfolding check
  serve-Distinct buckets d = insert-Distinct _ _ _ (retain-Distinct _ buckets d)

module _ (start window : ℕ) (r : Request) (from : start ≤ r.now) (to : r.now < start + window)
    (same : r.budget.window ≡ window) where
  -- The entry that a request of the key finds has the count so far.
  Counted-entry :
      (key : Text) (buckets : Buckets) (c : ℕ)
      → Counted key start window c buckets
      → (s : ℕ) × (reset_if_over r.budget r.now
            (or_insert (lookup key (retain (is_live r.budget r.now) buckets)) r.now)
          ≡ (c, s))
        × (start ≤ s)
  Counted-entry key buckets c (d, inl (missing, zeros)) = (
    r.now,
    rw (lookup-retain (is_live r.budget r.now) key buckets d) (rw missing (ground arith)),
    from,
  )
  Counted-entry key buckets c (d, inr (s, found, later)) = (
    s,
    rw (lookup-retain (is_live r.budget r.now) key buckets d) (rw found (ground arith)),
    later,
  )

  -- A request of the key is counted, and allowed up to the limit.
  Counted-self :
      (key : Text) (buckets : Buckets) (c : ℕ)
      → bucket_key r.scope r.identifier ≡ key
      → suc c < 2 ^ 32
      → Counted key start window c buckets
      → Counted key start window (suc c) (serve buckets r).0
        × (is_allowed (serve buckets r).1 ≡ leb (suc c) r.budget.max_requests)
  unfolding check
  Counted-self key buckets c e small h =
      let (s, found, later) = Counted-entry key buckets c h in
      let wrapped : (c + 1) % 2 ^ 32 ≡ suc c = omega arith in
      rw e (
        rw found (
          rw wrapped (
            (
              insert-Distinct key (suc c, s) _ (retain-Distinct _ buckets h.0),
              inr (s, lookup-insert_self key (suc c, s) _, later),
            ),
            ground arith,
          )))

  -- A request of another key leaves the count.
  Counted-other :
      (key : Text) (buckets : Buckets) (c : ℕ)
      → (bucket_key r.scope r.identifier == key) ≡ false
      → Counted key start window c buckets
      → Counted key start window c (serve buckets r).0
  Counted-other key buckets c e (d, inl (missing, zeros)) =
      (serve-Distinct r buckets d, inl (kept_other r key buckets none e d missing, zeros))
  Counted-other key buckets c e (d, inr (s, found, later)) = (
    serve-Distinct r buckets d,
    inr (s, kept_other r key buckets (some (c, s)) e d found ∙ ground arith, later),
  )

is_for_of_key :
    (scope : Scope) (identifier : Text) (r : Request)
    → (bucket_key r.scope r.identifier == bucket_key scope identifier) ≡ true
    → is_for scope identifier r ≡ true
is_for_of_key scope identifier r e =
    let (scopes, identifiers) =
      bucket_key_injective r.scope scope r.identifier identifier (==→≡ _ _ e) in
    rw (scopes, identifiers) (rw (==_refl scope) (==_refl identifier))

key_of_same :
    (scope : Scope) (identifier : Text) (r : Request)
    → is_for scope identifier r ≡ true
    → (bucket_key r.scope r.identifier == bucket_key scope identifier) ≡ true
key_of_same scope identifier r e =
    let (scopes, identifiers) =
      (and-eq-true_iff (scope == r.scope) (identifier == r.identifier)).0 e in
    rw (==→≡ scope r.scope scopes, ==→≡ identifier r.identifier identifiers)
      (==_refl (bucket_key r.scope r.identifier))

-- The key of a request is the bucket's exactly when the scope and identifier are.
key_of_is_for :
    (scope : Scope) (identifier : Text) (r : Request)
    → (bucket_key r.scope r.identifier == bucket_key scope identifier) ≡ is_for scope identifier r
key_of_is_for scope identifier r =
    Bool-ext (bucket_key r.scope r.identifier == bucket_key scope identifier)
      (is_for scope identifier r) (is_for_of_key scope identifier r)
      (key_of_same scope identifier r)

module _ (start window limit : ℕ) (scope : Scope) (identifier : Text) where
  allowed_from :
      (rs : List Request) (buckets : Buckets) (c : ℕ)
      → All (InWindow scope identifier start window limit) rs
      → c + requests_for scope identifier rs < 2 ^ 32
      → Counted (bucket_key scope identifier) start window c buckets
      → min c limit + allowed_for scope identifier buckets rs
        ≡ min (c + requests_for scope identifier rs) limit
  unfolding requests_for allowed_for
  allowed_from [] buckets c all small h = omega arith
  allowed_from (r ∷ rs) buckets c ((from, to, same, most), all) small h =
      elim (Bool-cases (is_for scope identifier r)) [
        | inl mine ↦
            let fits : c + (1 + requests_for scope identifier rs) < 2 ^ 32 = rw mine at small in
            let (counted, decided) =
              Counted-self start window r from to same (bucket_key scope identifier) buckets c
                (==→≡ _ _ (key_of_is_for scope identifier r ∙ mine)) (omega arith) h in
            let rest = allowed_from rs (serve buckets r).0 (suc c) all (omega arith) counted in
            rw mine (rw (decided ∙ ap (leb (suc c)) (most mine)) (ground (arith, rest)))
        | inr other ↦
            let fits : c + (0 + requests_for scope identifier rs) < 2 ^ 32 = rw other at small in
            let counted =
              Counted-other start window r from to same (bucket_key scope identifier) buckets c
                (key_of_is_for scope identifier r ∙ other) h in
            let rest = allowed_from rs (serve buckets r).0 c all (omega arith) counted in
            rw other (omega (arith, rest))
      ]

  -- Of the requests of one scope and identifier, starting with no entry of theirs in a store with
  -- one entry for a key, the number allowed is the number that come, up to their limit. Requests
  -- of other scopes and identifiers may stand between them. All their windows have one length,
  -- no request comes before a moment `start` or a window's length after it, and fewer than 2 ^ 32
  -- come of the scope and identifier.
  pub allowed-eq-min :
      (rs : List Request) (buckets : Buckets)
      → Distinct buckets
      → lookup (bucket_key scope identifier) buckets ≡ none
      → All (InWindow scope identifier start window limit) rs
      → requests_for scope identifier rs < 2 ^ 32
      → allowed_for scope identifier buckets rs ≡ min (requests_for scope identifier rs) limit
  allowed-eq-min rs buckets d missing all small =
      omega (arith, allowed_from rs buckets 0 all (omega arith) (d, inl (missing, refl)))

-- A check with a shorter window forgets what other keys have used of a longer one: after it a
-- request whose window is not over starts to count anew.
pub shorter_window_forgets :
    (buckets : Buckets) (r : Request) (scope : Scope) (identifier : Text) (count started : ℕ)
    → Distinct buckets
    → is_for scope identifier r ≡ false
    → lookup (bucket_key scope identifier) buckets ≡ some (count, started)
    → r.budget.window ≤ r.now - started
    → lookup (bucket_key scope identifier) (serve buckets r).0 ≡ none
shorter_window_forgets buckets r scope identifier count started d other found old =
    kept_other r (bucket_key scope identifier) buckets (some (count, started))
      (key_of_is_for scope identifier r ∙ other) d found
    ∙ ground arith
