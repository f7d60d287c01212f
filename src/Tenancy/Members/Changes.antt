-- ===== src/Tenancy/Members/Changes.antt =====
-- All that `update_member` may do to the tables, read off its branches once: it leaves them as they
-- are, or makes one change with its audit event, for which its guards have passed.
use customer_service_chat_sy.Base.{
  Bool, true, false, not, ◌&&◌, ◌≡◌, refl, ap, ◌∙◌, ◌⊎◌, inl, inr, [], ◌∷◌, ◌++◌, Option, none,
  some, Text, codes, eqb, leb, text_eq, ◌==◌, if◌then◌else◌, arith, find, find_sound,
  find-update_where, update_where, ℕ,
}
use customer_service_chat_sy.Authz.Role.{TenantRole, role_from_text}
use customer_service_chat_sy.Authz.Permission.{owner_assign}
use customer_service_chat_sy.Authz.Guard.{set_contains}
use customer_service_chat_sy.Tenancy.Ranks.{TenantContext, can_manage, can_assign, actor_role}
use customer_service_chat_sy.Tenancy.Roster.{
  Membership, MemberEvent, Db, is_member, set_role, set_status, Response, updated, internal_error,
}
use customer_service_chat_sy.Tenancy.Members.{
  UpdateMemberPayload, Faults, is_some, bool_eqb, is_owner, commit, apply, owner_rows, guard_owners,
  role_event, demotes, assign, status_event, disables_owner, change_status, for_payload, for_target,
  on_row, for_actor, update_member,
}

abbrev pub is_updated : Response → Bool
is_updated (updated m) = true
is_updated _ = false

if_cases : (b : Bool) (x y : Response) → ((if b then x else y) ≡ x) ⊎ ((if b then x else y) ≡ y)
if_cases true x y = inl refl
if_cases false x y = inr refl

module _ (db : Db) (faults : Faults) (ctx : TenantContext) (principal_user_id id : ℕ)
    (payload : UpdateMemberPayload) where
  -- The one change, with what its guards have tested.
  pub data Change (actor : TenantRole) (target : Membership)
      : (Membership → Membership) → MemberEvent → Type 0 where
    of_role :
        (new_role : Text) (parsed : TenantRole)
        → payload.role ≡ some new_role
        → role_from_text new_role ≡ some parsed
        → can_assign actor parsed ≡ true
        → (new_role == target.role) ≡ false
        → (is_owner parsed && not (set_contains ctx.permissions owner_assign)) ≡ false
        → (demotes db faults ctx principal_user_id id target new_role ≡ true
            → leb (owner_rows db faults ctx principal_user_id id) 1 ≡ false)
        → Change actor target
            (set_role new_role)
            (role_event db faults ctx principal_user_id id target new_role)
    of_status :
        (new_status : Text)
        → payload.status ≡ some new_status
        → (not (new_status == codes "active") && not (new_status == codes "disabled")) ≡ false
        → (new_status == target.status) ≡ false
        → (disables_owner db faults ctx principal_user_id id target new_status ≡ true
            → leb (owner_rows db faults ctx principal_user_id id) 1 ≡ false)
        → Change actor target
            (set_status new_status)
            (status_event db faults ctx principal_user_id id target new_status)

  -- The row that the call is about, and the actor's standing towards it.
  pub record Target (actor target_role : TenantRole) (target : Membership) : Type 0 where
    pub acting : actor_role ctx ≡ some actor
    pub found : find (is_member ctx.tenant_id id) db.memberships ≡ some target
    pub other_user : eqb target.user_id principal_user_id ≡ false
    pub has_role : role_from_text target.role ≡ some target_role
    pub manages : can_manage actor target_role ≡ true

  abbrev pub after_change : (Membership → Membership) → MemberEvent → Db
  after_change change event = record {
    memberships = update_where (is_member ctx.tenant_id id) change db.memberships;
    audit_events = db.audit_events ++ event ∷ [];
  }

  pub data Update : Db × Response → Type 0 where
    refused : (r : Response) → is_updated r ≡ false → Update (db, r)
    applied :
        (actor target_role : TenantRole) (target : Membership) (change : Membership → Membership)
        (event : MemberEvent)
        → Target actor target_role target
        → Change actor target change event
        → (r : Response)
        → (r ≡ updated (change target))
          ⊎ (r ≡ internal_error (codes "Failed to fetch updated member"))
        → Update (after_change change event, r)

  if_Update :
      (b : Bool) {x y : Db × Response}
      → (b ≡ true → Update x)
      → (b ≡ false → Update y)
      → Update (if b then x else y)
  if_Update true f g = f refl
  if_Update false f g = g refl

  commit_row :
      (actor target_role : TenantRole) (target : Membership) (change : Membership → Membership)
      (event : MemberEvent)
      → Target actor target_role target
      → Change actor target change event
      → ((m : Membership) → is_member ctx.tenant_id id (change m) ≡ is_member ctx.tenant_id id m)
      → Update (commit db faults ctx principal_user_id id (after_change change event))
  commit_row actor target_role target change event standing allowed same =
      let is_target = find_sound (is_member ctx.tenant_id id) db.memberships standing.found in
      let row =
        find-update_where (is_member ctx.tenant_id id) (is_member ctx.tenant_id id) change
          db.memberships same standing.found
        ∙ ap some (rw is_target refl) in
      if_Update (not faults.commits) (λ failed. refused _ refl)
        (λ committed. applied actor target_role target change event standing allowed _ (
          rw row (
            if_cases faults.fetches_updated (updated (change target))
              (internal_error (codes "Failed to fetch updated member")))))

  apply-Update :
      (actor target_role : TenantRole) (target : Membership) (change : Membership → Membership)
      (event : MemberEvent) (failure : Text)
      → Target actor target_role target
      → Change actor target change event
      → ((m : Membership) → is_member ctx.tenant_id id (change m) ≡ is_member ctx.tenant_id id m)
      → Update (apply db faults ctx principal_user_id id change event failure)
  apply-Update actor target_role target change event failure standing allowed same =
      if_Update (not faults.updates) (λ failed. refused _ refl)
        (λ updated_it.
          if_Update (not faults.records_audit) (λ failed. refused _ refl)
            (λ recorded. commit_row actor target_role target change event standing allowed same))

  guard_owners-Update :
      (needed : Bool) (message : Text) (changed : Db × Response)
      → ((needed ≡ true → leb (owner_rows db faults ctx principal_user_id id) 1 ≡ false)
          → Update changed)
      → Update (guard_owners db faults ctx principal_user_id id needed message changed)
  guard_owners-Update true message changed go =
      if_Update (not faults.locks_owners) (λ failed. refused _ refl)
        (λ locked.
          if_Update (leb (owner_rows db faults ctx principal_user_id id) 1) (λ last. refused _ refl)
            (λ several. go (λ needed. several)))
  guard_owners-Update false message changed go = go (λ needed. absurd (ground arith))

  assign-Update :
      (actor target_role : TenantRole) (target : Membership) (new_role : Text)
      (parsed : Option TenantRole)
      → Target actor target_role target
      → payload.role ≡ some new_role
      → role_from_text new_role ≡ parsed
      → Update (assign db faults ctx principal_user_id id actor target new_role parsed)
  assign-Update actor target_role target new_role none standing given parses = refused _ refl
  assign-Update actor target_role target new_role (some parsed) standing given parses =
      if_Update (not (can_assign actor parsed)) (λ denied. refused _ refl)
        (λ may_assign.
          if_Update (new_role == target.role) (λ same. refused _ refl)
            (λ different.
              if_Update (is_owner parsed && not (set_contains ctx.permissions owner_assign))
                (λ denied. refused _ refl)
                (λ may_own.
                  guard_owners-Update (demotes db faults ctx principal_user_id id target new_role) _
                    _
                    (λ guarded.
                      apply-Update actor target_role target (set_role new_role) _ _ standing
                        (of_role new_role parsed given parses (ground arith) different may_own
                          guarded)
                        (λ m. refl)))))

  change_status-Update :
      (actor target_role : TenantRole) (target : Membership) (new_status : Text)
      → Target actor target_role target
      → payload.status ≡ some new_status
      → Update (change_status db faults ctx principal_user_id id target new_status)
  change_status-Update actor target_role target new_status standing given =
      if_Update (not (new_status == codes "active") && not (new_status == codes "disabled"))
        (λ invalid. refused _ refl)
        (λ known.
          if_Update (new_status == target.status) (λ same. refused _ refl)
            (λ different.
              guard_owners-Update
                (disables_owner db faults ctx principal_user_id id target new_status) _ _
                (λ guarded.
                  apply-Update actor target_role target (set_status new_status) _ _ standing
                    (of_status new_status given known different guarded) (λ m. refl))))

  for_payload-Update :
      (actor target_role : TenantRole) (target : Membership) (role status : Option Text)
      → payload.role ≡ role
      → payload.status ≡ status
      → bool_eqb (is_some role) (is_some status) ≡ false
      → Target actor target_role target
      → Update (for_payload db faults ctx principal_user_id id actor target role status)
  for_payload-Update actor target_role target (some new_role) status given absent one standing =
      assign-Update actor target_role target new_role _ standing given refl
  for_payload-Update actor target_role target none (some new_status) absent given one standing =
      change_status-Update actor target_role target new_status standing given
  for_payload-Update actor target_role target none none absent absent' one standing =
      absurd (ground arith)

  module _ (one : bool_eqb (is_some payload.role) (is_some payload.status) ≡ false)
      (actor : TenantRole) (acting : actor_role ctx ≡ some actor) where
    for_target-Update :
        (target : Membership) (role : Option TenantRole)
        → find (is_member ctx.tenant_id id) db.memberships ≡ some target
        → eqb target.user_id principal_user_id ≡ false
        → role_from_text target.role ≡ role
        → Update (for_target db faults ctx principal_user_id id actor payload target role)
    for_target-Update target none found other has = refused _ refl
    for_target-Update target (some target_role) found other has =
        if_Update (not (can_manage actor target_role)) (λ denied. refused _ refl)
          (λ managed.
            for_payload-Update actor target_role target payload.role payload.status refl refl one
              (record {
                acting = acting;
                found = found;
                other_user = other;
                has_role = has;
                manages = ground arith;
              }))

    on_row-Update :
        (row : Option Membership)
        → find (is_member ctx.tenant_id id) db.memberships ≡ row
        → Update (on_row db faults ctx principal_user_id id actor payload row)
    on_row-Update none found = refused _ refl
    on_row-Update (some target) found =
        if_Update (eqb target.user_id principal_user_id) (λ oneself. refused _ refl)
          (λ other. for_target-Update target _ found other refl)

  for_actor-Update :
      (actor : Option TenantRole)
      → bool_eqb (is_some payload.role) (is_some payload.status) ≡ false
      → actor_role ctx ≡ actor
      → Update (for_actor db faults ctx principal_user_id id payload actor)
  for_actor-Update none one acting = refused _ refl
  for_actor-Update (some actor) one acting =
      if_Update (not faults.begins) (λ failed. refused _ refl)
        (λ begun.
          if_Update (not faults.takes_lock) (λ failed. refused _ refl)
            (λ locked.
              if_Update (not faults.fetches_target) (λ failed. refused _ refl)
                (λ fetched. on_row-Update one actor acting _ refl)))

  pub update_member-Update : Update (update_member db faults ctx principal_user_id id payload)
  unfolding update_member
  update_member-Update =
      if_Update (bool_eqb (is_some payload.role) (is_some payload.status)) (λ both. refused _ refl)
        (λ one. for_actor-Update _ one refl)
