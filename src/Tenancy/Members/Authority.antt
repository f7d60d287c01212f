-- ===== src/Tenancy/Members/Authority.antt =====
-- Who may change a member, to what, and what a call that fails leaves behind.
use customer_service_chat_sy.Base.{
  ℕ, ◌≤◌, Bool, true, false, not, ◌&&◌, ◌≡◌, ◌≢◌, refl, sym, ◌∙◌, inl, inr, [], ◌∷◌, ◌++◌, some,
  codes, leb→le, text_eq, arith, find, update_where,
}
use customer_service_chat_sy.Authz.Role.{TenantRole, role_from_text}
use customer_service_chat_sy.Authz.Permission.{owner_assign}
use customer_service_chat_sy.Authz.Guard.{set_contains}
use customer_service_chat_sy.Tenancy.Ranks.{
  TenantContext, role_rank, can_manage, can_assign, actor_role,
}
use customer_service_chat_sy.Tenancy.Roster.{
  Membership, MemberEvent, Db, is_member, Response, updated, internal_error,
}
use customer_service_chat_sy.Tenancy.Members.{UpdateMemberPayload, Faults, is_owner, update_member}
use customer_service_chat_sy.Tenancy.Members.Changes.{
  Change, of_role, of_status, Target, Update, refused, applied, is_updated, update_member-Update,
}

-- A change that the actor is entitled to, from one row to another.
pub record IsEntitled (ctx : TenantContext) (principal_user_id : ℕ) (before after : Membership)
    : Type 0 where
  pub actor : TenantRole
  pub old_role : TenantRole
  pub new_role : TenantRole
  pub acting : actor_role ctx ≡ some actor
  pub of_other : before.user_id ≢ principal_user_id
  pub had : role_from_text before.role ≡ some old_role
  pub has : role_from_text after.role ≡ some new_role
  pub outranks : can_manage actor old_role ≡ true
  pub bounded : role_rank new_role ≤ role_rank actor
  pub own_assign :
      (is_owner new_role
        && (not (is_owner old_role) && not (set_contains ctx.permissions owner_assign)))
      ≡ false

assigned :
    (actor parsed : TenantRole)
    → can_assign actor parsed ≡ true
    → role_rank parsed ≤ role_rank actor
assigned actor parsed h = leb→le (role_rank parsed) (role_rank actor) h

managed :
    (actor role : TenantRole) → can_manage actor role ≡ true → role_rank role ≤ role_rank actor
managed actor role h = ground arith

still_owner :
    (role : TenantRole) (may : Bool) → (is_owner role && (not (is_owner role) && not may)) ≡ false
still_owner role may = ground arith

updated_injective : {m n : Membership} → updated m ≡ updated n → m ≡ n
updated_injective e = cc e

module _ (db : Db) (faults : Faults) (ctx : TenantContext) (principal_user_id id : ℕ)
    (payload : UpdateMemberPayload) where
  -- One row has changed, from `before` to `after`, and one audit event is written.
  pub record IsChange (after : Membership) (db' : Db) : Type 0 where
    pub before : Membership
    pub change : Membership → Membership
    pub event : MemberEvent
    pub found : find (is_member ctx.tenant_id id) db.memberships ≡ some before
    pub changed : change before ≡ after
    pub memberships :
        db'.memberships ≡ update_where (is_member ctx.tenant_id id) change db.memberships
    pub audited : db'.audit_events ≡ db.audit_events ++ event ∷ []
    pub entitled : IsEntitled ctx principal_user_id before after

  other_user :
      {actor target_role : TenantRole} {target : Membership}
      → Target db faults ctx principal_user_id id payload actor target_role target
      → target.user_id ≢ principal_user_id
  other_user standing same = absurd (ground (arith, standing.other_user))

  Change-IsEntitled :
      {actor target_role : TenantRole} {target : Membership} {change : Membership → Membership}
      {event : MemberEvent}
      → Target db faults ctx principal_user_id id payload actor target_role target
      → Change db faults ctx principal_user_id id payload actor target change event
      → IsEntitled ctx principal_user_id target (change target)
  Change-IsEntitled {actor} {target_role} {target} standing
        (of_role new_role parsed given parses may differs own guarded) =
      record {
        actor = actor;
        old_role = target_role;
        new_role = parsed;
        acting = standing.acting;
        of_other = other_user standing;
        had = standing.has_role;
        has = parses;
        outranks = standing.manages;
        bounded = assigned actor parsed may;
        own_assign = ground (arith, own);
      }
  Change-IsEntitled {actor} {target_role} {target} standing
        (of_status new_status given known differs guarded) =
      record {
        actor = actor;
        old_role = target_role;
        new_role = target_role;
        acting = standing.acting;
        of_other = other_user standing;
        had = standing.has_role;
        has = standing.has_role;
        outranks = standing.manages;
        bounded = managed actor target_role standing.manages;
        own_assign = still_owner target_role _;
      }

  Update-updated :
      {result : Db × Response} (after : Membership)
      → Update db faults ctx principal_user_id id payload result
      → result.1 ≡ updated after
      → IsChange after result.0
  Update-updated after (refused r h) e = absurd (ground (arith, rw e at h))
  Update-updated after
        (applied actor target_role target change event standing allowed r (inl fetched)) e =
      record {
        before = target;
        change = change;
        event = event;
        found = standing.found;
        changed = updated_injective (sym fetched ∙ e);
        memberships = refl;
        audited = refl;
        entitled = rw (← updated_injective (sym fetched ∙ e)) (Change-IsEntitled standing allowed);
      }
  Update-updated after
        (applied actor target_role target change event standing allowed r (inr failed)) e =
      absurd (ground (arith, sym failed ∙ e))

  Update-failed :
      {result : Db × Response}
      → Update db faults ctx principal_user_id id payload result
      → is_updated result.1 ≡ false
      → result.1 ≢ internal_error (codes "Failed to fetch updated member")
      → result.0 ≡ db
  Update-failed (refused r h) denied other = refl
  Update-failed (applied actor target_role target change event standing allowed r (inl fetched))
        denied other =
      absurd (ground (arith, rw fetched at denied))
  Update-failed (applied actor target_role target change event standing allowed r (inr failed))
        denied other =
      absurd (other failed)

  -- When the answer is the updated row, it is the row found for the identifier in the tenant, changed
  -- and nothing else of the table but it, with one audit event; it is not the caller's own; the
  -- caller's role outranks the role that the row had (or both are owners) and is not below the one
  -- that it has now; and an owner is made of another only with the permission for it.
  pub update_member-updated :
      (after : Membership)
      → (update_member db faults ctx principal_user_id id payload).1 ≡ updated after
      → IsChange after (update_member db faults ctx principal_user_id id payload).0
  update_member-updated after e =
      Update-updated after (update_member-Update db faults ctx principal_user_id id payload) e

  -- Any other answer leaves the memberships and the audit events as they were, but for the one that
  -- says that the updated row could not be fetched.
  pub update_member-failed :
      is_updated (update_member db faults ctx principal_user_id id payload).1 ≡ false
      → (update_member db faults ctx principal_user_id id payload).1
        ≢ internal_error (codes "Failed to fetch updated member")
      → (update_member db faults ctx principal_user_id id payload).0 ≡ db
  update_member-failed denied other =
      Update-failed (update_member-Update db faults ctx principal_user_id id payload) denied other
