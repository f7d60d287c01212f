-- ===== src/Base/Keyed.antt =====
-- A hash map as an association list with one entry for a key.
use mathlib.Core.Path.{◌≡◌, refl, ap, ◌∙◌}
use mathlib.Core.Logic.{inl, inr}
use mathlib.Core.Bool.{Bool, false}
use mathlib.Core.List.{List, [], ◌∷◌}
use mathlib.Core.Option.{Option, none, some}
use native.Mathlib.Omega.{arith}
use customer_service_chat_sy.Base.Lists.{retain}
use customer_service_chat_sy.Base.Tests.{if◌then◌else◌, Eq, ◌==◌, ==_refl, ==_sym, ==→≡, Bool-cases}

module _ {ℓ κ} {K : Type ℓ} {V : Type κ} ⦃e : Eq K⦄ where
  -- `HashMap::get`.
  unfoldable pub lookup : (wanted : K) (entries : List (K × V)) → Option V
  lookup wanted [] = none
  lookup wanted ((key, value) ∷ rest) = if key == wanted then some value else lookup wanted rest

  -- `HashMap::insert`: an entry of the key is replaced where it stands.
  unfoldable pub insert : (key : K) (value : V) (entries : List (K × V)) → List (K × V)
  insert key value [] = (key, value) ∷ []
  insert key value ((old, kept) ∷ rest) =
      if old == key then (key, value) ∷ rest else (old, kept) ∷ insert key value rest

  -- The entry of the key inserted.
  pub lookup-insert_self : (k : K) (v : V) (m : List (K × V)) → lookup k (insert k v m) ≡ some v
  unfolding lookup insert
  lookup-insert_self k v [] = rw (==_refl k)
  lookup-insert_self k v ((j, w) ∷ m) = elim (Bool-cases (j == k)) [
    | inl same ↦ rw same (rw (==_refl k))
    | inr other ↦ rw other (rw (other, lookup) (lookup-insert_self k v m))
  ]

  -- The entries of the other keys.
  pub lookup-insert_ne :
      (k j : K) (v : V) (m : List (K × V)) → (k == j) ≡ false → lookup j (insert k v m) ≡ lookup j m
  unfolding lookup insert
  lookup-insert_ne k j v [] h = rw h
  lookup-insert_ne k j v ((i, w) ∷ m) h = elim (Bool-cases (i == k)) [
    | inl same ↦
        let other : (i == j) ≡ false = rw (==→≡ i k same) h in rw same (rw h (rw other refl))
    | inr other ↦ rw other (ground (arith, lookup-insert_ne k j v m h))
  ]

  -- One entry for a key.
  abbrev pub Distinct : List (K × V) → Type κ
  Distinct [] = Unit
  Distinct ((k, v) ∷ m) = (lookup k m ≡ none) × Distinct m

  -- What `retain` leaves of an entry.
  abbrev pub keep : (K × V → Bool) → K → Option V → Option V
  keep p k none = none
  keep p k (some v) = if p (k, v) then some v else none

  lookup-retain-none :
      (p : K × V → Bool) (k : K) (m : List (K × V))
      → lookup k m ≡ none
      → lookup k (retain p m) ≡ none
  unfolding lookup
  lookup-retain-none p k [] h = refl
  lookup-retain-none p k ((j, v) ∷ m) h = ground (arith, lookup-retain-none p k m)

  -- `retain` tests the entry of each key by itself.
  pub lookup-retain :
      (p : K × V → Bool) (k : K) (m : List (K × V))
      → Distinct m
      → lookup k (retain p m) ≡ keep p k (lookup k m)
  unfolding lookup
  lookup-retain p k [] d = refl
  lookup-retain p k ((j, v) ∷ m) (fresh, d) = elim (Bool-cases (j == k)) [
    | inl same ↦
        let here : j ≡ k = ==→≡ j k same in
        let gone = lookup-retain-none p k m (rw here at fresh) in
        let moved : p (j, v) ≡ p (k, v) = ap (λ x. p (x, v)) here in
        rw same (ground (arith, moved, gone))
    | inr other ↦ rw other (ground (arith, lookup-retain p k m d))
  ]

  pub retain-Distinct : (p : K × V → Bool) (m : List (K × V)) → Distinct m → Distinct (retain p m)
  retain-Distinct p [] d = tt
  retain-Distinct p ((j, v) ∷ m) (fresh, d) =
      ground (arith, retain-Distinct p m d, lookup-retain-none p j m fresh)

  pub insert-Distinct : (k : K) (v : V) (m : List (K × V)) → Distinct m → Distinct (insert k v m)
  unfolding insert lookup
  insert-Distinct k v [] d = (refl, tt)
  insert-Distinct k v ((j, w) ∷ m) (fresh, d) = elim (Bool-cases (j == k)) [
    | inl same ↦ rw same (rw (==→≡ j k same) at fresh, d)
    | inr other ↦
        rw other (lookup-insert_ne k j v m (==_sym j k other) ∙ fresh, insert-Distinct k v m d)
  ]
