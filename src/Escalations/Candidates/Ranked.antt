-- ===== src/Escalations/Candidates/Ranked.antt =====
-- The member chosen is the best of those who can take over.
use customer_service_chat_sy.Base.{
  ℕ, zero, suc, ◌≡◌, refl, Bool, true, false, not, ◌&&◌, List, [], ◌∷◌, map, Option, none, some,
  if◌then◌else◌, Bool-cases, inl, inr, get_elem?, any, all, retain, arith,
}
use customer_service_chat_sy.Escalations.Rows.{Db}
use customer_service_chat_sy.Escalations.Candidates.{
  Candidate, is_eligible, candidate_of, precedes, first_of, first, select_candidate,
}

precedes_asym : (a b : Candidate) → precedes b a ≡ true → precedes a b ≡ false
unfolding precedes
precedes_asym a b h = ground arith

precedes_irrefl : (a : Candidate) → precedes a a ≡ false
unfolding precedes
precedes_irrefl a = ground arith

precedes_weak :
    (x b a : Candidate) → precedes x b ≡ false → precedes b a ≡ false → precedes x a ≡ false
unfolding precedes
precedes_weak x b a h k = ground arith

module _ {A : Type 0} (p : A → Bool) (f : A → Candidate) where
  -- No element that passes the test precedes.
  abbrev pub unbeaten : List A → Candidate → Bool
  unbeaten xs c = all (λ x. not (p x && precedes (f x) c)) xs

  unbeaten-weak :
      (xs : List A) (b a : Candidate)
      → unbeaten xs b ≡ true
      → precedes b a ≡ false
      → unbeaten xs a ≡ true
  unbeaten-weak [] b a h k = refl
  unbeaten-weak (x ∷ xs) b a h k = ground (arith, unbeaten-weak xs b a, precedes_weak (f x) b a)

  pub data IsBest (xs : List A) : Option Candidate → Type 0 where
    nobody : any p xs ≡ false → IsBest xs none
    best :
        (i : ℕ) (x : A) {c : Candidate}
        → get_elem? xs i ≡ some x
        → p x ≡ true
        → c ≡ f x
        → unbeaten xs c ≡ true
        → IsBest xs (some c)

  skip :
      (x : A) (xs : List A) (r : Option Candidate) → p x ≡ false → IsBest xs r → IsBest (x ∷ xs) r
  skip x xs none h (nobody u) = nobody (ground arith)
  skip x xs (some c) h (best i y e q d u) = best (suc i) y e q d (ground arith)

  unbeaten_none : (xs : List A) (c : Candidate) → any p xs ≡ false → unbeaten xs c ≡ true
  unbeaten_none [] c h = refl
  unbeaten_none (x ∷ xs) c h = ground (arith, unbeaten_none xs c)

  better :
      (x : A) (xs : List A) (c : Candidate) (b : Bool)
      → precedes c (f x) ≡ b
      → p x ≡ true
      → IsBest xs (some c)
      → IsBest (x ∷ xs) (some (if b then c else f x))
  better x xs c true e h (best i y g q d u) =
      best (suc i) y g q d (ground (arith, precedes_asym (f x) c))
  better x xs c false e h (best i y g q d u) =
      best zero x refl h refl (ground (arith, precedes_irrefl (f x), unbeaten-weak xs c (f x)))

  join :
      (x : A) (xs : List A) (r : Option Candidate)
      → p x ≡ true
      → IsBest xs r
      → IsBest (x ∷ xs) (some (first_of (f x) r))
  join x xs none h (nobody u) =
      best zero x refl h refl (ground (arith, precedes_irrefl (f x), unbeaten_none xs (f x)))
  join x xs (some c) h b = better x xs c (precedes c (f x)) refl h b

  first-IsBest : (xs : List A) → IsBest xs (first (map f (retain p xs)))
  unfolding first
  first-IsBest [] = nobody refl
  first-IsBest (x ∷ xs) = elim (Bool-cases (p x)) [
    | inl fits ↦ rw fits (join x xs (first (map f (retain p xs))) fits (first-IsBest xs))
    | inr unfit ↦ rw unfit (skip x xs (first (map f (retain p xs))) unfit (first-IsBest xs))
  ]

-- Nobody is chosen exactly when nobody can take over; else the chosen member can, and none who can
-- has more of the skills, or as many and a smaller load, or both the same and a smaller id.
pub select_candidate-IsBest :
    (db : Db) (tenant_id : ℕ) (required_skill_ids present_ids : List ℕ)
    → IsBest
        (is_eligible db tenant_id present_ids)
        (candidate_of db tenant_id required_skill_ids)
        db.memberships
        (select_candidate db tenant_id required_skill_ids present_ids)
unfolding select_candidate
select_candidate-IsBest db tenant_id required_skill_ids present_ids =
    first-IsBest (is_eligible db tenant_id present_ids)
      (candidate_of db tenant_id required_skill_ids) db.memberships
