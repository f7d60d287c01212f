-- ===== src/Escalations/Presence.antt =====
-- The registry of connected members: backend/crates/modules/escalations/src/presence.rs, less the
-- broadcast of events. A guard that is dropped and a revert after the grace period are steps of
-- their own, as the source spawns a task for each; either holds the registry's lock while it reads
-- or changes it. A flag says whether the transaction of a revert succeeds.
pub mod Held
mod Examples
use customer_service_chat_sy.Base.{
  ℕ, ◌+◌, ◌-◌, ◌%◌, ◌^◌, Bool, true, false, not, ◌&&◌, List, [], ◌∷◌, ◌++◌, map, Option, none, some,
  Text, codes, eqb, text_eq, ◌==◌, ℕ_eq, if◌then◌else◌, lookup, insert, retain, any, update_where,
}

-- `members` of `TenantPresence`, and the registry of the tenants.
abbrev pub Members : Type 0
Members = List (ℕ × ℕ)

abbrev pub Registry : Type 0
Registry = List (ℕ × Members)

-- `HashMap::remove`.
abbrev pub remove : ℕ → Members → Members
remove k m = retain (λ (e : ℕ × ℕ). not (eqb e.0 k)) m

abbrev pub or_empty : Option Members → Members
or_empty none = []
or_empty (some members) = members

abbrev pub or_zero : Option ℕ → ℕ
or_zero none = 0
or_zero (some count) = count

-- `connect`, with the count as a `usize`.
unfoldable pub connect : Registry → (tenant_id membership_id : ℕ) → Registry
connect registry tenant_id membership_id =
    let members = or_empty (lookup tenant_id registry) in
    let count = (or_zero (lookup membership_id members) + 1) % 2 ^ 64 in
    insert tenant_id (insert membership_id count members) registry

abbrev pub release : Registry → (tenant_id membership_id : ℕ) → Members → Option ℕ → Registry × Bool
release registry tenant_id membership_id members none = (registry, false)
release registry tenant_id membership_id members (some count) =
    if eqb (count - 1) 0
    then (insert tenant_id (remove membership_id members) registry, true)
    else (insert tenant_id (insert membership_id (count - 1) members) registry, false)

abbrev pub release_of : Registry → (tenant_id membership_id : ℕ) → Option Members → Registry × Bool
release_of registry tenant_id membership_id none = (registry, false)
release_of registry tenant_id membership_id (some members) =
    release registry tenant_id membership_id members (lookup membership_id members)

-- `Drop for PresenceGuard`: the registry, and whether a revert is to be scheduled.
unfoldable pub drop_guard : Registry → (tenant_id membership_id : ℕ) → Registry × Bool
drop_guard registry tenant_id membership_id =
    release_of registry tenant_id membership_id (lookup tenant_id registry)

unfoldable pub present_membership_ids : Registry → (tenant_id : ℕ) → List ℕ
present_membership_ids registry tenant_id =
    map (λ (e : ℕ × ℕ). e.0) (or_empty (lookup tenant_id registry))

-- A row of `agent_availability`, and the audit events of a revert.
pub record Availability : Type 0 where
  pub tenant_id : ℕ
  pub membership_id : ℕ
  pub state : Text

pub record Db : Type 0 where
  pub availability : List Availability
  pub audit_events : List (ℕ × ℕ)

abbrev pub is_available_row : (tenant_id membership_id : ℕ) → Availability → Bool
is_available_row tenant_id membership_id a =
    eqb a.tenant_id tenant_id && (eqb a.membership_id membership_id && a.state == codes "available")

abbrev pub set_away : Availability → Availability
set_away a = record a { state = codes "away" }

-- The task of `schedule_presence_revert`, once the grace period is over.
unfoldable pub presence_revert :
    Registry → (commits : Bool) → (tenant_id membership_id : ℕ) → Db → Db
presence_revert registry commits tenant_id membership_id db =
    let count = or_zero (lookup membership_id (or_empty (lookup tenant_id registry))) in
    if eqb count 0 && commits
    then record {
      availability =
          update_where (is_available_row tenant_id membership_id) set_away db.availability;
      audit_events =
          if any (is_available_row tenant_id membership_id) db.availability
          then db.audit_events ++ (tenant_id, membership_id) ∷ []
          else db.audit_events;
    }
    else db
