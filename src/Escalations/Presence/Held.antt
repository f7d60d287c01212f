-- ===== src/Escalations/Presence/Held.antt =====
-- A member is present exactly as long as it holds a guard.
use customer_service_chat_sy.Base.{
  ℕ, suc, ◌+◌, ◌-◌, ◌%◌, ◌^◌, ◌<◌, Bool, true, false, ◌&&◌, ◌≡◌, ◌≤◌, ◌⊎◌, refl, ap, ◌∙◌, inl, inr,
  List, [], ◌∷◌, ◌++◌, map, Option, none, some, eqb, ltb, eqb_iff, ℕ_eq, if◌then◌else◌, Bool-cases,
  lookup, insert, lookup-insert_self, lookup-insert_ne, contains, count, length, arith,
}
use customer_service_chat_sy.Escalations.Presence.{
  Members, Registry, remove, or_empty, or_zero, connect, release_of, drop_guard,
  present_membership_ids, Db, presence_revert,
}

abbrev entry : Registry → (t m : ℕ) → Option ℕ
entry registry t m = lookup m (or_empty (lookup t registry))

lookup-remove_self : (k : ℕ) (ms : Members) → lookup k (remove k ms) ≡ none
unfolding lookup
lookup-remove_self k [] = refl
lookup-remove_self k ((j, c) ∷ ms) = ground (arith, lookup-remove_self k ms)

lookup-remove_ne : (k j : ℕ) (ms : Members) → eqb k j ≡ false → lookup j (remove k ms) ≡ lookup j ms
unfolding lookup
lookup-remove_ne k j [] h = refl
lookup-remove_ne k j ((i, c) ∷ ms) h = ground (arith, h, lookup-remove_ne k j ms)

-- The entry of the same member, and those of the others, after a tenant's members are changed.
entry-insert_other :
    (registry : Registry) (t t' m' : ℕ) (ms : Members)
    → eqb t t' ≡ false
    → entry (insert t ms registry) t' m' ≡ entry registry t' m'
entry-insert_other registry t t' m' ms h = rw (lookup-insert_ne t t' ms registry h) refl

entry-insert_same :
    (registry : Registry) (t m' : ℕ) (ms : Members)
    → entry (insert t ms registry) t m' ≡ lookup m' ms
entry-insert_same registry t m' ms = rw (lookup-insert_self t ms registry) refl

-- The entries once a member's is set, or removed.
entry-changed :
    (registry : Registry) (t m : ℕ) (ms : Members) (value : Option ℕ)
    → lookup m ms ≡ value
    → ((m' : ℕ) → eqb m m' ≡ false → lookup m' ms ≡ entry registry t m')
    → (t' m' : ℕ)
    → entry (insert t ms registry) t' m'
      ≡ (if eqb t t' && eqb m m' then value else entry registry t' m')
entry-changed registry t m ms value at_m others t' m' = elim (Bool-cases (eqb t t')) [
  | inl same_t ↦
      let here : t ≡ t' = (eqb_iff t t').0 same_t in
      rw same_t (rw (← here) (entry-insert_same registry t m' ms ∙ inner (Bool-cases (eqb m m'))))
  | inr other ↦ rw other (entry-insert_other registry t t' m' ms other)
]
  where
    inner :
        (eqb m m' ≡ true) ⊎ (eqb m m' ≡ false)
        → lookup m' ms ≡ (if eqb m m' then value else entry registry t m')
    inner (inl same_m) = let here : m ≡ m' = (eqb_iff m m').0 same_m in rw same_m (rw (← here) at_m)
    inner (inr other) = rw other (others m' other)

-- The guards that are alive, each with its tenant and its member.
abbrev pub held : List (ℕ × ℕ) → (t m : ℕ) → ℕ
held guards t m = count (λ (g : ℕ × ℕ). eqb g.0 t && eqb g.1 m) guards

abbrev of_count : ℕ → Option ℕ
of_count n = if eqb n 0 then none else some n

-- A new connection, of which there are fewer than a `usize` counts, or a guard dropped.
pub data Step : Registry × List (ℕ × ℕ) → Registry × List (ℕ × ℕ) → Type 0 where
  connects :
      {registry : Registry} {guards : List (ℕ × ℕ)} (t m : ℕ)
      → length guards + 1 < 2 ^ 64
      → Step (registry, guards) (connect registry t m, (t, m) ∷ guards)
  drops :
      {registry : Registry} (earlier later : List (ℕ × ℕ)) (t m : ℕ)
      → Step (registry, earlier ++ (t, m) ∷ later) ((drop_guard registry t m).0, earlier ++ later)

pub data Steps : Registry × List (ℕ × ℕ) → Type 0 where
  start : Steps ([], [])
  next : {s s' : Registry × List (ℕ × ℕ)} → Steps s → Step s s' → Steps s'

abbrev Counted : Registry × List (ℕ × ℕ) → Type 0
Counted (registry, guards) = (t m : ℕ) → entry registry t m ≡ of_count (held guards t m)

held-length : (guards : List (ℕ × ℕ)) (t m : ℕ) → held guards t m ≤ length guards
held-length [] t m = omega arith
held-length (g ∷ guards) t m = ground (arith, held-length guards t m)

or_zero-of_count : (n : ℕ) → or_zero (of_count n) ≡ n
or_zero-of_count n = ground arith

wrapped : (n : ℕ) → n + 1 < 2 ^ 64 → some ((n + 1) % 2 ^ 64) ≡ of_count (1 + n)
wrapped n h = let fits : (n + 1) % 2 ^ 64 ≡ 1 + n = omega (arith, h) in rw fits (ground arith)

connect-Counted :
    (registry : Registry) (guards : List (ℕ × ℕ)) (t m : ℕ)
    → length guards + 1 < 2 ^ 64
    → Counted (registry, guards)
    → Counted (connect registry t m, (t, m) ∷ guards)
unfolding connect
connect-Counted registry guards t m small before t' m' =
    entry-changed registry t m _ (some ((or_zero (entry registry t m) + 1) % 2 ^ 64))
      (lookup-insert_self m _ (or_empty (lookup t registry)))
      (λ j other. lookup-insert_ne m j _ (or_empty (lookup t registry)) other) t' m'
    ∙ counted (Bool-cases (eqb t t' && eqb m m'))
  where
    counted :
        ((eqb t t' && eqb m m') ≡ true) ⊎ ((eqb t t' && eqb m m') ≡ false)
        → (if eqb t t' && eqb m m'
            then some ((or_zero (entry registry t m) + 1) % 2 ^ 64)
            else entry registry t' m')
          ≡ of_count (held ((t, m) ∷ guards) t' m')
    counted (inl both) =
        let here : t ≡ t' = ground (arith, both) in
        let here' : m ≡ m' = ground (arith, both) in
        let value : or_zero (entry registry t m) ≡ held guards t m =
          ap or_zero (before t m) ∙ or_zero-of_count (held guards t m) in
        let value' : or_zero (entry registry t m) ≡ held guards t' m' =
          value ∙ rw (here, here') refl in
        let fewer = held-length guards t' m' in
        rw both (rw value' (wrapped (held guards t' m') (omega (arith, small, fewer))))
    counted (inr other) = rw other (before t' m' ∙ ap of_count (omega arith))

held-dropped :
    (earlier later : List (ℕ × ℕ)) (t m t' m' : ℕ)
    → held (earlier ++ (t, m) ∷ later) t' m'
      ≡ (if eqb t t' && eqb m m' then 1 else 0) + held (earlier ++ later) t' m'
held-dropped [] later t m t' m' = refl
held-dropped (g ∷ earlier) later t m t' m' = omega (arith, held-dropped earlier later t m t' m')

-- What `release` leaves of the entries.
release-entry :
    (registry : Registry) (t m n : ℕ)
    → (found : Option Members) → lookup t registry ≡ found
    → lookup m (or_empty found) ≡ some (suc n)
    → (t' m' : ℕ)
    → entry (release_of registry t m found).0 t' m'
      ≡ (if eqb t t' && eqb m m' then of_count n else entry registry t' m')
unfolding lookup
release-entry registry t m n none is e t' m' = absurd (ground arith)
release-entry registry t m n (some members) is e t' m' =
    let back : suc n - 1 ≡ n = omega arith in
    rw e (
      rw back (elim (Bool-cases (eqb n 0)) [
        | inl last ↦ rw last (
            entry-changed registry t m (remove m members) none (lookup-remove_self m members)
              (λ j other. rw is (lookup-remove_ne m j members other)) t' m')
        | inr more ↦ rw more (
            entry-changed registry t m (insert m n members) (some n)
              (lookup-insert_self m n members)
              (λ j other. rw is (lookup-insert_ne m j n members other)) t' m')
      ]))

some_of : (n : ℕ) → of_count (1 + n) ≡ some (suc n)
some_of n =
    let later : 1 + n ≡ suc n = omega arith in
    let positive : eqb (suc n) 0 ≡ false = ground arith in rw later (rw positive refl)

drop_guard-Counted :
    (registry : Registry) (earlier later : List (ℕ × ℕ)) (t m : ℕ)
    → Counted (registry, earlier ++ (t, m) ∷ later)
    → Counted ((drop_guard registry t m).0, earlier ++ later)
unfolding drop_guard
drop_guard-Counted registry earlier later t m before t' m' =
    release-entry registry t m (held (earlier ++ later) t m) (lookup t registry) refl
      (before t m
        ∙ ap of_count (own (held-dropped earlier later t m t m))
        ∙ some_of (held (earlier ++ later) t m))
      t' m'
    ∙ rest (Bool-cases (eqb t t' && eqb m m'))
  where
    own :
        held (earlier ++ (t, m) ∷ later) t m
          ≡ (if eqb t t && eqb m m then 1 else 0) + held (earlier ++ later) t m
        → held (earlier ++ (t, m) ∷ later) t m ≡ 1 + held (earlier ++ later) t m
    own e = ground (arith, e)

    rest :
        ((eqb t t' && eqb m m') ≡ true) ⊎ ((eqb t t' && eqb m m') ≡ false)
        → (if eqb t t' && eqb m m'
            then of_count (held (earlier ++ later) t m)
            else entry registry t' m')
          ≡ of_count (held (earlier ++ later) t' m')
    rest (inl both) =
        let here : t ≡ t' = ground (arith, both) in
        let here' : m ≡ m' = ground (arith, both) in rw both (rw (here, here') refl)
    rest (inr other) =
        let same : held (earlier ++ (t, m) ∷ later) t' m' ≡ held (earlier ++ later) t' m' =
          ground (arith, held-dropped earlier later t m t' m', other) in
        rw other (before t' m' ∙ ap of_count same)

Steps-Counted : {s : Registry × List (ℕ × ℕ)} → Steps s → Counted s
unfolding lookup
Steps-Counted start = λ t m. refl
Steps-Counted (next before (connects {registry} {guards} t m small)) =
    connect-Counted registry guards t m small (Steps-Counted before)
Steps-Counted (next before (drops {registry} earlier later t m)) =
    drop_guard-Counted registry earlier later t m (Steps-Counted before)

is_some : Option ℕ → Bool
is_some none = false
is_some (some n) = true

contains-keys :
    (m : ℕ) (ms : Members) → contains (map (λ (e : ℕ × ℕ). e.0) ms) m ≡ is_some (lookup m ms)
unfolding contains lookup is_some
contains-keys m [] = refl
contains-keys m ((j, c) ∷ ms) = ground (arith, contains-keys m ms)

is_some-of_count : (n : ℕ) → is_some (of_count n) ≡ ltb 0 n
unfolding is_some
is_some-of_count n = ground arith

-- From an empty registry, after any connections and any guards dropped in any order, the members
-- that are listed as present are exactly those that hold a guard; and a revert that was scheduled
-- earlier leaves the availability as it is while the member holds one, and otherwise does what it
-- does with no member connected.
pub present_membership_ids-held :
    {registry : Registry} {guards : List (ℕ × ℕ)}
    → Steps (registry, guards)
    → (t m : ℕ) (commits : Bool) (db : Db)
    → (contains (present_membership_ids registry t) m ≡ ltb 0 (held guards t m))
      × (presence_revert registry commits t m db
          ≡ (if ltb 0 (held guards t m) then db else presence_revert [] commits t m db))
unfolding present_membership_ids presence_revert lookup
present_membership_ids-held {registry} {guards} steps t m commits db =
    let counted = Steps-Counted steps t m in
    (
      contains-keys m (or_empty (lookup t registry))
          ∙ ap is_some counted
          ∙ is_some-of_count (held guards t m),
      rw counted (
          rw (or_zero-of_count (held guards t m)) (elim (Bool-cases (ltb 0 (held guards t m))) [
            | inl alive ↦
                let some_held : eqb (held guards t m) 0 ≡ false = ground (arith, alive) in
                rw (alive, some_held) refl
            | inr gone ↦
                let none_held : eqb (held guards t m) 0 ≡ true = ground (arith, gone) in
                rw (gone, none_held) refl
          ])),
    )
