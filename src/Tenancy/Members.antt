-- ===== src/Tenancy/Members.antt =====
-- The handler that changes the role or the status of a member: `update_member` of
-- backend/crates/modules/tenancy/src/members.rs. One function stands for each stretch of its
-- branches. Its transaction holds the tenant's lock, so that no other change of the roster comes
-- between its statements; a flag says of each call of the database whether it succeeds. Until the
-- commit nothing of it is seen, and a failed commit leaves the tables as they were.
pub mod Changes
pub mod Owners
pub mod Authority
use customer_service_chat_sy.Base.{
  ℕ, Bool, true, false, not, ◌&&◌, [], ◌∷◌, ◌++◌, Option, none, some, Text, codes, eqb, leb,
  text_eq, ◌==◌, if◌then◌else◌, find, count, update_where,
}
use customer_service_chat_sy.Authz.Role.{TenantRole, role_from_text}
use customer_service_chat_sy.Authz.Permission.{owner_assign}
use customer_service_chat_sy.Authz.Guard.{set_contains}
use customer_service_chat_sy.Tenancy.Ranks.{TenantContext, can_manage, can_assign, actor_role}
use customer_service_chat_sy.Tenancy.Roster.{
  Membership, MemberEvent, member_role_changed, member_disabled, member_enabled, Db, is_member,
  is_active_owner, set_role, set_status, Response, updated, unprocessable_entity, unauthorized,
  not_found, conflict, internal_error,
}

pub record UpdateMemberPayload : Type 0 where
  pub role : Option Text
  pub status : Option Text

-- Which of the calls succeed.
pub record Faults : Type 0 where
  pub begins : Bool
  pub takes_lock : Bool
  pub fetches_target : Bool
  pub locks_owners : Bool
  pub updates : Bool
  pub records_audit : Bool
  pub commits : Bool
  pub fetches_updated : Bool

abbrev pub is_some : Option Text → Bool
is_some none = false
is_some (some t) = true

abbrev pub bool_eqb : Bool → Bool → Bool
bool_eqb true b = b
bool_eqb false b = not b

abbrev pub is_owner : TenantRole → Bool
is_owner TenantRole.owner = true
is_owner _ = false

module _ (db : Db) (faults : Faults) (ctx : TenantContext) (principal_user_id id : ℕ) where
  -- The row that is read back once the transaction has been committed.
  abbrev pub fetch_updated : Db → Option Membership → Response
  fetch_updated db' none = internal_error (codes "Failed to fetch updated member")
  fetch_updated db' (some m) =
      if faults.fetches_updated
      then updated m
      else internal_error (codes "Failed to fetch updated member")

  abbrev pub commit : Db → Db × Response
  commit db' =
      if not faults.commits
      then (db, internal_error (codes "Failed to commit transaction"))
      else (db', fetch_updated db' (find (is_member ctx.tenant_id id) db'.memberships))

  -- The update, its audit event and the commit.
  abbrev pub apply : (Membership → Membership) → MemberEvent → (failure : Text) → Db × Response
  apply change event failure =
      if not faults.updates
      then (db, internal_error failure)
      else if not faults.records_audit
      then (db, internal_error (codes "Failed to record audit"))
      else commit (record {
        memberships = update_where (is_member ctx.tenant_id id) change db.memberships;
        audit_events = db.audit_events ++ event ∷ [];
      })

  abbrev pub owner_rows : ℕ
  owner_rows = count (is_active_owner ctx.tenant_id) db.memberships

  -- The guard of the last active owner, where it is needed.
  abbrev pub guard_owners : (needed : Bool) → (message : Text) → Db × Response → Db × Response
  guard_owners needed message changed =
      if needed
      then (if not faults.locks_owners
          then (db, internal_error (codes "Failed to lock owner memberships"))
          else if leb owner_rows 1
          then (db, conflict message)
          else changed)
      else changed

  abbrev pub role_event : (target : Membership) → (new_role : Text) → MemberEvent
  role_event target new_role =
      member_role_changed principal_user_id ctx.tenant_id target.id target.role new_role

  abbrev pub demotes : (target : Membership) → (new_role : Text) → Bool
  demotes target new_role = target.role == codes "owner" && not (new_role == codes "owner")

  abbrev pub assign :
      (actor : TenantRole) → Membership → (new_role : Text) → Option TenantRole → Db × Response
  assign actor target new_role none = (db, unprocessable_entity (codes "role"))
  assign actor target new_role (some parsed) =
      if not (can_assign actor parsed)
      then (db, unauthorized (codes "Cannot assign this role"))
      else if new_role == target.role
      then (db, conflict (codes "Member role is already " ++ new_role))
      else if is_owner parsed && not (set_contains ctx.permissions owner_assign)
      then (
        db,
        unauthorized (codes "Assigning the owner role requires the owner.assign permission"),
      )
      else guard_owners (demotes target new_role) (codes "Cannot demote the last active Owner")
          (apply (set_role new_role) (role_event target new_role) (codes "Failed to update role"))

  abbrev pub status_event : (target : Membership) → (new_status : Text) → MemberEvent
  status_event target new_status =
      if new_status == codes "disabled"
      then member_disabled principal_user_id ctx.tenant_id target.id target.role target.status
          new_status
      else member_enabled principal_user_id ctx.tenant_id target.id target.role target.status
          new_status

  abbrev pub disables_owner : (target : Membership) → (new_status : Text) → Bool
  disables_owner target new_status = new_status == codes "disabled" && target.role == codes "owner"

  abbrev pub change_status : (target : Membership) → (new_status : Text) → Db × Response
  change_status target new_status =
      if not (new_status == codes "active") && not (new_status == codes "disabled")
      then (db, unprocessable_entity (codes "status"))
      else if new_status == target.status
      then (db, conflict (codes "Member status is already " ++ new_status))
      else guard_owners (disables_owner target new_status)
          (codes "Cannot disable the last active Owner")
          (apply (set_status new_status) (status_event target new_status)
            (codes "Failed to update status"))

  -- With neither of the two, which the first guard excludes, the transaction is committed as it is.
  abbrev pub for_payload : TenantRole → Membership → (role status : Option Text) → Db × Response
  for_payload actor target (some new_role) status =
      assign actor target new_role (role_from_text new_role)
  for_payload actor target none (some new_status) = change_status target new_status
  for_payload actor target none none = commit db

  abbrev pub for_target :
      TenantRole → UpdateMemberPayload → Membership → Option TenantRole → Db × Response
  for_target actor payload target none = (db, internal_error (codes "Invalid target role"))
  for_target actor payload target (some target_role) =
      if not (can_manage actor target_role)
      then (db, unauthorized (codes "Insufficient rank to manage this member"))
      else for_payload actor target payload.role payload.status

  abbrev pub on_row : TenantRole → UpdateMemberPayload → Option Membership → Db × Response
  on_row actor payload none = (db, not_found (codes "Membership not found"))
  on_row actor payload (some target) =
      if eqb target.user_id principal_user_id
      then (db, unauthorized (codes "Cannot perform this action on yourself"))
      else for_target actor payload target (role_from_text target.role)

  abbrev pub for_actor : UpdateMemberPayload → Option TenantRole → Db × Response
  for_actor payload none = (db, unauthorized (codes "Insufficient permissions to manage members"))
  for_actor payload (some actor) =
      if not faults.begins
      then (db, internal_error (codes "Failed to begin transaction"))
      else if not faults.takes_lock
      then (db, internal_error (codes "Failed to update member"))
      else if not faults.fetches_target
      then (db, internal_error (codes "Failed to fetch membership"))
      else on_row actor payload (find (is_member ctx.tenant_id id) db.memberships)

  unfoldable pub update_member : UpdateMemberPayload → Db × Response
  update_member payload =
      if bool_eqb (is_some payload.role) (is_some payload.status)
      then (db, unprocessable_entity (codes "body"))
      else for_actor payload (actor_role ctx)
