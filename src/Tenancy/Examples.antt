-- ===== src/Tenancy/Examples.antt =====
-- The roster's handlers at concrete inputs.
use customer_service_chat_sy.Base.{
  ℕ, ◌≤◌, true, false, ◌≡◌, refl, [], ◌∷◌, none, some, codes, eqb, arith, count,
}
use customer_service_chat_sy.Authz.Role.{TenantRole, role_from_text}
use customer_service_chat_sy.Authz.Guard.{set_contains}
use customer_service_chat_sy.Authz.Permission.{members_manage, owner_assign}
use customer_service_chat_sy.Tenancy.Ranks.{TenantContext}
use customer_service_chat_sy.Tenancy.Roster.{Membership, Db, updated, conflict, internal_error}
use customer_service_chat_sy.Tenancy.Members.{UpdateMemberPayload, Faults, update_member}
use customer_service_chat_sy.Tenancy.Members.Owners.{
  IsOwned, Calls, here, calls, update_member-IsOwned,
}
use customer_service_chat_sy.Tenancy.Members.Authority.{
  IsChange, update_member-updated, update_member-failed,
}

abbrev first_owner : Membership
first_owner = record {
  id = 1;
  tenant_id = 7;
  user_id = 11;
  role = codes "owner";
  status = codes "active";
  deleted = false;
}

abbrev some_agent : Membership
some_agent = record first_owner { id = 3; user_id = 13; role = codes "agent" }

abbrev promoted_agent : Membership
promoted_agent = record some_agent { role = codes "manager" }

abbrev disabled_agent : Membership
disabled_agent = record some_agent { status = codes "disabled" }

abbrev roster : Db
roster = record { memberships = first_owner ∷ some_agent ∷ []; audit_events = [] }

abbrev all_well : Faults
all_well = record {
  begins = true;
  takes_lock = true;
  fetches_target = true;
  locks_owners = true;
  updates = true;
  records_audit = true;
  commits = true;
  fetches_updated = true;
}

abbrev as_owner : TenantContext
as_owner = record {
  tenant_id = 7;
  tenant_role = some TenantRole.owner;
  permissions = members_manage ∷ owner_assign ∷ [];
}

abbrev to_manager : UpdateMemberPayload
to_manager = record { role = some (codes "manager"); status = none }

abbrev to_disabled : UpdateMemberPayload
to_disabled = record { role = none; status = some (codes "disabled") }

promotes : (update_member roster all_well as_owner 11 3 to_manager).1 ≡ updated promoted_agent
unfolding update_member role_from_text set_contains
promotes = refl

-- Platform staff with `owner.assign` act as owners, but not on the last active one.
last_owner :
    (update_member roster all_well (record as_owner { tenant_role = none }) 99 1 to_disabled).1
    ≡ conflict (codes "Cannot disable the last active Owner")
unfolding update_member role_from_text set_contains
last_owner = refl

abbrev commit_fails : Faults
commit_fails = record all_well { commits = false }

commit_failed :
    (update_member roster commit_fails as_owner 11 3 to_manager).1
    ≡ internal_error (codes "Failed to commit transaction")
unfolding update_member role_from_text set_contains
commit_failed = refl

-- A disabled owner beside one active owner: not the last active one, and yet refused.
disabled_owner_kept :
    (update_member
      (record roster {
        memberships =
            first_owner
            ∷ record first_owner { id = 2; user_id = 12; status = codes "disabled" }
            ∷ [];
      })
      all_well
      as_owner
      11
      2
      to_manager).1
    ≡ conflict (codes "Cannot demote the last active Owner")
unfolding update_member role_from_text set_contains
disabled_owner_kept = refl

roster_keyed : (id : ℕ) → count (λ m. eqb m.id id) roster.memberships ≤ 1
roster_keyed id = ground arith

roster-IsOwned : IsOwned 7 roster.memberships
roster-IsOwned = record { keyed = roster_keyed; owned = omega arith }

abbrev after_calls : Db
after_calls =
    (update_member (update_member roster all_well as_owner 11 3 to_manager).0 all_well
      (record as_owner { tenant_role = none }) 99 1 to_disabled).0

two-Calls : Calls roster after_calls
two-Calls =
    calls (calls here all_well as_owner 11 3 to_manager) all_well
      (record as_owner { tenant_role = none }) 99 1 to_disabled

update_member-IsOwned_example : IsOwned 7 after_calls.memberships
update_member-IsOwned_example = update_member-IsOwned 7 two-Calls roster-IsOwned

update_member-updated_example :
    IsChange roster all_well as_owner 11 3 to_manager promoted_agent
      (update_member roster all_well as_owner 11 3 to_manager).0
update_member-updated_example =
    update_member-updated roster all_well as_owner 11 3 to_manager promoted_agent promotes

update_member-failed_example :
    (update_member roster commit_fails as_owner 11 3 to_manager).0 ≡ roster
update_member-failed_example =
    update_member-failed roster commit_fails as_owner 11 3 to_manager (rw commit_failed refl)
      (rw commit_failed (λ e. ground (arith, e)))
