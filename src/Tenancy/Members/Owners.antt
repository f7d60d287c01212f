-- ===== src/Tenancy/Members/Owners.antt =====
-- A tenant keeps an active owner, whoever changes its members.
use customer_service_chat_sy.Base.{
  ℕ, ◌+◌, ◌≤◌, ◌<◌, Bool, true, false, ◌&&◌, ◌≡◌, refl, inl, inr, List, [], ◌∷◌, some, codes, eqb,
  leb, text_eq, eqb_iff, ◌==◌, arith, Bool-cases, find, count, update_where, count-update_where,
}
use customer_service_chat_sy.Authz.Role.{TenantRole}
use customer_service_chat_sy.Tenancy.Ranks.{TenantContext}
use customer_service_chat_sy.Tenancy.Roster.{
  Membership, MemberEvent, Db, Response, is_member, is_active_owner, set_role, set_status,
}
use customer_service_chat_sy.Tenancy.Members.{
  UpdateMemberPayload, Faults, demotes, disables_owner, update_member,
}
use customer_service_chat_sy.Tenancy.Members.Changes.{
  Change, of_role, of_status, Target, Update, refused, applied, update_member-Update,
}

-- What an update may take from a count, by the rows that it changes.
count-lost :
    (q p : Membership → Bool) (f : Membership → Membership) (ms : List Membership)
    → count q ms ≤ count q (update_where p f ms) + count (λ m. p m && q m) ms
count-lost q p f [] = omega arith
count-lost q p f (m ∷ ms) = ground (arith, count-lost q p f ms)

count-kept :
    (q p : Membership → Bool) (f : Membership → Membership) (ms : List Membership)
    → ((m : Membership) → q m ≡ true → q (f m) ≡ true)
    → count q ms ≤ count q (update_where p f ms)
count-kept q p f [] h = omega arith
count-kept q p f (m ∷ ms) h = ground (arith, h m, count-kept q p f ms h)

count_le :
    (p q : Membership → Bool) (ms : List Membership)
    → ((m : Membership) → p m ≡ true → q m ≡ true)
    → count p ms ≤ count q ms
count_le p q [] h = omega arith
count_le p q (m ∷ ms) h = ground (arith, h m, count_le p q ms h)

count_none :
    (p : Membership → Bool) (ms : List Membership)
    → ((m : Membership) → p m ≡ false)
    → count p ms ≡ 0
count_none p [] h = refl
count_none p (m ∷ ms) h = ground (arith, h m, count_none p ms h)

-- The one row that passes the first test does not pass the second.
count_found :
    (p q : Membership → Bool) (ms : List Membership) {r : Membership}
    → find p ms ≡ some r
    → count p ms ≤ 1
    → q r ≡ false
    → count (λ m. p m && q m) ms ≡ 0
count_found p q [] e h out = refl
count_found p q (m ∷ ms) {r} e h out =
    let rest = count_le (λ x. p x && q x) p ms (λ x both. ground arith) in
    ground (arith, rest, count_found p q ms {r = r})

-- The identifiers are a primary key, and the tenant has an active owner.
pub record IsOwned (tenant_id : ℕ) (ms : List Membership) : Type 0 where
  pub keyed : (id : ℕ) → count (λ m. eqb m.id id) ms ≤ 1
  pub owned : 0 < count (is_active_owner tenant_id) ms

module _ (db : Db) (faults : Faults) (ctx : TenantContext) (principal_user_id id : ℕ)
    (payload : UpdateMemberPayload) (tenant_id : ℕ) (whole : IsOwned tenant_id db.memberships) where
  abbrev lost : ℕ
  lost = count (λ m. is_member ctx.tenant_id id m && is_active_owner tenant_id m) db.memberships

  one_row : count (is_member ctx.tenant_id id) db.memberships ≤ 1
  one_row =
      let of_key =
        count_le (is_member ctx.tenant_id id) (λ m. eqb m.id id) db.memberships
          (λ m is_one. ground arith) in
      omega (arith, of_key, whole.keyed id)

  one_lost : lost ≤ 1
  one_lost =
      let of_row =
        count_le (λ m. is_member ctx.tenant_id id m && is_active_owner tenant_id m)
          (is_member ctx.tenant_id id) db.memberships (λ m both. ground arith) in
      omega (arith, of_row, one_row)

  other_tenant : eqb ctx.tenant_id tenant_id ≡ false → lost ≡ 0
  other_tenant other = count_none _ db.memberships (λ m. ground arith)

  stays_owned :
      (change : Membership → Membership) (needed : Bool)
      → (needed ≡ true → leb (count (is_active_owner ctx.tenant_id) db.memberships) 1 ≡ false)
      → (needed ≡ false
          → count (is_active_owner tenant_id) db.memberships
            ≤ count
                (is_active_owner tenant_id)
                (update_where (is_member ctx.tenant_id id) change db.memberships))
      → 0
        < count
            (is_active_owner tenant_id)
            (update_where (is_member ctx.tenant_id id) change db.memberships)
  stays_owned change false guarded safe = omega (arith, safe refl, whole.owned)
  stays_owned change true guarded safe =
      let loses =
        count-lost (is_active_owner tenant_id) (is_member ctx.tenant_id id) change db.memberships in
      elim (Bool-cases (eqb ctx.tenant_id tenant_id)) [
        | inl same ↦
            let here : ctx.tenant_id ≡ tenant_id = (eqb_iff ctx.tenant_id tenant_id).0 same in
            let several : leb (count (is_active_owner tenant_id) db.memberships) 1 ≡ false =
              rw (← here) (guarded refl) in
            ground (arith, loses, one_lost, several)
        | inr other ↦ omega (arith, loses, other_tenant other, whole.owned)
      ]

  no_owner :
      (change : Membership → Membership) {target : Membership}
      → find (is_member ctx.tenant_id id) db.memberships ≡ some target
      → (target.role == codes "owner") ≡ false
      → count (is_active_owner tenant_id) db.memberships
        ≤ count
            (is_active_owner tenant_id)
            (update_where (is_member ctx.tenant_id id) change db.memberships)
  no_owner change {target} found junior =
      let loses =
        count-lost (is_active_owner tenant_id) (is_member ctx.tenant_id id) change db.memberships in
      let none_lost =
        count_found (is_member ctx.tenant_id id) (is_active_owner tenant_id) db.memberships found
          one_row (ground (arith, junior)) in
      omega (arith, loses, none_lost)

  Change-IsOwned :
      {actor target_role : TenantRole} {target : Membership} {change : Membership → Membership}
      {event : MemberEvent}
      → Target db faults ctx principal_user_id id payload actor target_role target
      → Change db faults ctx principal_user_id id payload actor target change event
      → 0
        < count
            (is_active_owner tenant_id)
            (update_where (is_member ctx.tenant_id id) change db.memberships)
  Change-IsOwned {target} standing (of_role new_role parsed given parses may differs own guarded) =
      stays_owned (set_role new_role) (demotes db faults ctx principal_user_id id target new_role)
        guarded
        (λ safe. elim (Bool-cases (new_role == codes "owner")) [
          | inl to_owner ↦
              count-kept (is_active_owner tenant_id) (is_member ctx.tenant_id id)
                (set_role new_role) db.memberships (λ m h. ground (arith, to_owner))
          | inr other ↦ no_owner (set_role new_role) standing.found (ground (arith, other))
        ])
  Change-IsOwned {target} standing (of_status new_status given known differs guarded) =
      stays_owned (set_status new_status)
        (disables_owner db faults ctx principal_user_id id target new_status) guarded
        (λ safe. elim (Bool-cases (new_status == codes "disabled")) [
          | inl disables ↦
              no_owner (set_status new_status) standing.found (ground (arith, disables))
          | inr other ↦
              count-kept (is_active_owner tenant_id) (is_member ctx.tenant_id id)
                (set_status new_status) db.memberships (λ m h. ground (arith, known, other))
        ])

  Change-keyed :
      {actor : TenantRole} {target : Membership} {change : Membership → Membership}
      {event : MemberEvent}
      → Change db faults ctx principal_user_id id payload actor target change event
      → (k : ℕ)
      → count (λ m. eqb m.id k) (update_where (is_member ctx.tenant_id id) change db.memberships)
        ≤ 1
  Change-keyed (of_role new_role parsed given parses may differs own guarded) k = omega (
    arith,
    whole.keyed k,
    count-update_where (λ m. eqb m.id k) (is_member ctx.tenant_id id) (set_role new_role)
        db.memberships (λ m. refl),
  )
  Change-keyed (of_status new_status given known differs guarded) k = omega (
    arith,
    whole.keyed k,
    count-update_where (λ m. eqb m.id k) (is_member ctx.tenant_id id) (set_status new_status)
        db.memberships (λ m. refl),
  )

  Update-IsOwned :
      {result : Db × Response}
      → Update db faults ctx principal_user_id id payload result
      → IsOwned tenant_id result.0.memberships
  Update-IsOwned (refused r h) = whole
  Update-IsOwned (applied actor target_role target change event standing allowed r answer) =
      record { keyed = Change-keyed allowed; owned = Change-IsOwned standing allowed }

-- Calls of the handler, by anyone, in any tenant, each with whatever failures.
pub data Calls (db : Db) : Db → Type 0 where
  here : Calls db db
  calls :
      {db' : Db}
      → Calls db db'
      → (faults : Faults) (ctx : TenantContext) (principal_user_id id : ℕ)
        (payload : UpdateMemberPayload)
      → Calls db (update_member db' faults ctx principal_user_id id payload).0

-- When a tenant has an active owner, it has one after any number of calls of `update_member`, by
-- anyone and in any tenant, whatever fails of the database; the identifiers of the memberships
-- stay distinct, as they have to be before.
pub update_member-IsOwned :
    (tenant_id : ℕ) {db db' : Db}
    → Calls db db'
    → IsOwned tenant_id db.memberships
    → IsOwned tenant_id db'.memberships
update_member-IsOwned tenant_id here whole = whole
update_member-IsOwned tenant_id (calls before faults ctx principal_user_id id payload) whole =
    Update-IsOwned _ faults ctx principal_user_id id payload tenant_id
      (update_member-IsOwned tenant_id before whole)
      (update_member-Update _ faults ctx principal_user_id id payload)
