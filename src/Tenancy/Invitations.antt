-- ===== src/Tenancy/Invitations.antt =====
-- Invitations accepted and revoked: `accept_invitation` and `revoke_invitation` of
-- backend/crates/modules/tenancy/src/invitations.rs. Either handler first reads the invitation
-- outside of its transaction, so that others can come between: its second half is a function of
-- the row as it was read and of the tables as they are later. A flag says of each call whether it
-- succeeds; the texts that end in a database's error are kept without it. What Unicode, the type
-- CITEXT and the hash of a password do is a parameter.
pub mod Once
pub mod Entered
pub mod Accepted
mod Examples
use customer_service_chat_sy.Base.{
  ℕ, Bool, false, not, ◌&&◌, ◌||◌, List, [], ◌∷◌, ◌++◌, Option, none, some, Text, codes, eqb, ltb,
  text_eq, ◌==◌, if◌then◌else◌, all, any, find, count, update_where,
}
use customer_service_chat_sy.Authz.Role.{TenantRole, role_from_text}
use customer_service_chat_sy.Tenancy.Ranks.{TenantContext, role_rank, staff_effective_rank}
use customer_service_chat_sy.Tenancy.Roster.{Membership}

pub record Invitation : Type 0 where
  pub id : ℕ
  pub tenant_id : ℕ
  pub email : Text
  pub role : Text
  pub token_hash : Text
  pub status : Text
  pub expires_at : ℕ

pub record Tenant : Type 0 where
  pub id : ℕ
  pub status : Text
  pub deleted : Bool

pub record User : Type 0 where
  pub id : ℕ
  pub email : Text
  pub display_name : Text

pub data InvitationEvent : Type 0 where
  invitation_accepted :
      (actor_user_id tenant_id invitation_id : ℕ) (email role : Text) (user_id : ℕ)
      → InvitationEvent
  invitation_revoked :
      (actor_user_id tenant_id invitation_id : ℕ) (email role : Text) → InvitationEvent

pub record Db : Type 0 where
  pub invitations : List Invitation
  pub tenants : List Tenant
  pub users : List User
  pub memberships : List Membership
  pub audit_events : List InvitationEvent

pub data Response : Type 0 where
  success : Response  -- 200, 204
  not_found : (message : Text) → Response  -- 404
  gone : (message : Text) → Response  -- 410
  unauthorized : (message : Text) → Response  -- 403
  conflict : (message : Text) → Response  -- 409
  unprocessable_entity : Response  -- 422
  internal_error : (message : Text) → Response  -- 500

pub record External : Type 0 where
  pub to_lowercase : Text → Text
  pub is_whitespace : ℕ → Bool
  pub same_email : Text → Text → Bool

pub record Faults : Type 0 where
  pub begins : Bool
  pub locks : Bool
  pub reads_tenant : Bool
  pub reads_membership : Bool
  pub reads_user : Bool
  pub hashes_password : Bool
  pub inserts_user : Bool
  pub consumes : Bool
  pub inserts_membership : Bool
  pub records_audit : Bool
  pub commits : Bool
  pub answers : Bool

-- `OptionalPrincipal`, and the payload of a new account.
pub record Signed : Type 0 where
  pub user_id : ℕ
  pub email : Text

pub record AcceptInvitationPayload : Type 0 where
  pub display_name : Option Text
  pub password : Option Text

-- The invitation as it is read at first, with the status of its tenant.
pub record InvitationRead : Type 0 where
  pub invitation : Invitation
  pub tenant_status : Text

abbrev pub is_tenant : ℕ → Tenant → Bool
is_tenant id t = eqb t.id id && not t.deleted

abbrev pub with_tenant : Invitation → Option Tenant → Option InvitationRead
with_tenant i none = none
with_tenant i (some t) = some (record { invitation = i; tenant_status = t.status })

abbrev pub of_token : Db → Option Invitation → Option InvitationRead
of_token db none = none
of_token db (some i) = with_tenant i (find (is_tenant i.tenant_id) db.tenants)

-- The first query of `accept_invitation`.
unfoldable pub read_by_token : Db → (token_hash : Text) → Option InvitationRead
read_by_token db token_hash =
    of_token db (find (λ (i : Invitation). i.token_hash == token_hash) db.invitations)

abbrev pub is_invitation : (id tenant_id : ℕ) → Invitation → Bool
is_invitation id tenant_id i = eqb i.id id && eqb i.tenant_id tenant_id

abbrev pub is_pending : Invitation → Bool
is_pending i = i.status == codes "pending"

-- `status = 'pending' AND expires_at > now()`.
abbrev pub is_valid_at : (now : ℕ) → Invitation → Bool
is_valid_at now i = is_pending i && ltb now i.expires_at

abbrev pub is_consumable : (id tenant_id now : ℕ) → Invitation → Bool
is_consumable id tenant_id now i = is_invitation id tenant_id i && is_valid_at now i

abbrev pub set_status : Text → Invitation → Invitation
set_status status i = record i { status = status }

abbrev pub is_live_member : (tenant_id user_id : ℕ) → Membership → Bool
is_live_member tenant_id user_id m =
    eqb m.tenant_id tenant_id && (eqb m.user_id user_id && not m.deleted)

abbrev pub is_active : Option Tenant → Bool
is_active none = false
is_active (some t) = t.status == codes "active"

abbrev pub is_valid_row : (now : ℕ) → Option Invitation → Bool
is_valid_row now none = false
is_valid_row now (some i) = is_valid_at now i

module _ (x : External) (faults : Faults) (db : Db) (now : ℕ) where
  abbrev pub finish : Db → Db × Response
  finish db' =
      if not faults.records_audit
      then (db, internal_error (codes "Audit insert failed"))
      else if not faults.commits
      then (db, internal_error (codes "Transaction commit failed"))
      else (
        db',
        if faults.answers then success else internal_error (codes "Failed to build the response"),
      )

  -- The invitation consumed, the membership inserted, which the unique index forbids beside a live
  -- one, the event and the commit.
  abbrev pub consume :
      (failure : Text)
      → Invitation
      → (users : List User) → (user_id membership_id : ℕ) → Db × Response
  consume failure i users user_id membership_id =
      if not faults.consumes
      then (db, internal_error failure)
      else if eqb (count (is_consumable i.id i.tenant_id now) db.invitations) 0
      then (db, gone (codes "Invitation is no longer valid"))
      else if not faults.inserts_membership
          || any (is_live_member i.tenant_id user_id) db.memberships
      then (db, internal_error (codes "Membership insert failed"))
      else finish (record db {
        users = users;
        invitations =
            update_where (is_consumable i.id i.tenant_id now) (set_status (codes "accepted"))
              db.invitations;
        memberships =
            db.memberships
            ++ record {
              id = membership_id;
              tenant_id = i.tenant_id;
              user_id = user_id;
              role = i.role;
              status = codes "active";
              deleted = false;
            }
              ∷ [];
        audit_events =
            db.audit_events
            ++ invitation_accepted user_id i.tenant_id i.id i.email i.role user_id ∷ [];
      })

  abbrev pub member_conflict : Membership → Response
  member_conflict m =
      if m.status == codes "disabled"
      then conflict (codes "Your account is disabled in this tenant")
      else conflict (codes "You are already a member of this tenant")

  -- A failed query counts as no membership.
  abbrev pub existing : (tenant_id user_id : ℕ) → Option Membership
  existing tenant_id user_id =
      if faults.reads_membership
      then find (is_live_member tenant_id user_id) db.memberships
      else none

  abbrev pub no_member :
      Invitation → Signed → (membership_id : ℕ) → Option Membership → Db × Response
  no_member i principal membership_id (some m) = (db, member_conflict m)
  no_member i principal membership_id none =
      consume (codes "Database update failed") i db.users principal.user_id membership_id

  abbrev pub accept_signed : Invitation → Signed → (membership_id : ℕ) → Db × Response
  accept_signed i principal membership_id =
      if not (x.to_lowercase principal.email == x.to_lowercase i.email)
      then (db, unauthorized (codes "Invitation email does not match your account email"))
      else no_member i principal membership_id (existing i.tenant_id principal.user_id)

  -- `validate_account_creation`: neither is missing or blank.
  abbrev pub is_given : Option Text → Bool
  is_given none = false
  is_given (some t) = not (all x.is_whitespace t)

  abbrev pub has_account : Text → Bool
  has_account email = any (λ (u : User). x.same_email u.email email) db.users

  abbrev pub accept_anonymous :
      Invitation
      → AcceptInvitationPayload
      → (display_name : Text) → (user_id membership_id : ℕ) → Db × Response
  accept_anonymous i payload display_name user_id membership_id =
      if not (is_given payload.display_name && is_given payload.password)
      then (db, unprocessable_entity)
      else if faults.reads_user && has_account i.email
      then (db, conflict (codes "An account with this email already exists. Please sign in first."))
      else if not faults.hashes_password
      then (db, internal_error (codes "Failed to hash password"))
      else if has_account i.email
      then (db, conflict (codes "An account with this email already exists"))
      else if not faults.inserts_user
      then (db, internal_error (codes "User insert failed"))
      else consume (codes "Invitation update failed") i
          (db.users ++ record { id = user_id; email = i.email; display_name = display_name } ∷ [])
          user_id membership_id

  abbrev pub accept_as :
      Invitation
      → Option Signed
      → AcceptInvitationPayload
      → (display_name : Text) → (user_id membership_id : ℕ) → Db × Response
  accept_as i (some principal) payload display_name user_id membership_id =
      accept_signed i principal membership_id
  accept_as i none payload display_name user_id membership_id =
      accept_anonymous i payload display_name user_id membership_id

  -- The transaction: the invitation and the tenant are read again under locks.
  abbrev pub accept_locked :
      Invitation
      → Option Signed
      → AcceptInvitationPayload
      → (display_name : Text) → (user_id membership_id : ℕ) → Db × Response
  accept_locked i principal payload display_name user_id membership_id =
      if not faults.begins
      then (db, internal_error (codes "Database transaction begin failed"))
      else if not faults.locks
      then (db, internal_error (codes "Invitation lock failed"))
      else if not (is_valid_row now (find (is_invitation i.id i.tenant_id) db.invitations))
      then (db, gone (codes "Invitation is no longer valid"))
      else if not (faults.reads_tenant && is_active (find (is_tenant i.tenant_id) db.tenants))
      then (db, not_found (codes "Invitation not found"))
      else accept_as i principal payload display_name user_id membership_id

  -- The rest of `accept_invitation`, from the row that was read at `then_now`. The new account's
  -- trimmed name and the identifiers are arguments.
  unfoldable pub accept_read :
      (then_now : ℕ)
      → Option InvitationRead
      → Option Signed
      → AcceptInvitationPayload
      → (display_name : Text) → (user_id membership_id : ℕ) → Db × Response
  accept_read then_now none principal payload display_name user_id membership_id =
      (db, not_found (codes "Invitation not found"))
  accept_read then_now (some r) principal payload display_name user_id membership_id =
      let i = r.invitation in
      if not (r.tenant_status == codes "active")
      then (db, not_found (codes "Invitation not found"))
      else if i.status == codes "expired" || (is_pending i && ltb i.expires_at then_now)
      then (db, gone (codes "Invitation has expired"))
      else if i.status == codes "revoked"
      then (db, not_found (codes "Invitation not found"))
      else if not (is_pending i)
      then (db, gone (codes "Invitation has already been used"))
      else accept_locked i principal payload display_name user_id membership_id

  -- `status IN ('pending', 'expired')`.
  abbrev pub is_revocable : Invitation → Bool
  is_revocable i = is_pending i || i.status == codes "expired"

  abbrev pub is_revocable_row : (id tenant_id : ℕ) → Invitation → Bool
  is_revocable_row id tenant_id i = is_invitation id tenant_id i && is_revocable i

  abbrev pub revoke_tx : TenantContext → (principal_user_id : ℕ) → Invitation → Db × Response
  revoke_tx ctx principal_user_id i =
      if not faults.begins
      then (db, internal_error (codes "Database transaction begin failed"))
      else if not faults.consumes
      then (db, internal_error (codes "Database update failed"))
      else if eqb (count (is_revocable_row i.id ctx.tenant_id) db.invitations) 0
      then (db, conflict (codes "Invitation cannot be revoked"))
      else finish (record db {
        invitations =
            update_where (is_revocable_row i.id ctx.tenant_id) (set_status (codes "revoked"))
              db.invitations;
        audit_events =
            db.audit_events
            ++ invitation_revoked principal_user_id ctx.tenant_id i.id i.email i.role ∷ [];
      })

  abbrev pub with_rank :
      TenantContext → (principal_user_id : ℕ) → Invitation → TenantRole → Option ℕ → Db × Response
  with_rank ctx principal_user_id i target_role none = (db, unauthorized (codes "Access denied"))
  with_rank ctx principal_user_id i target_role (some actor_rank) =
      if ltb actor_rank (role_rank target_role)
      then (db, unauthorized (codes "Access denied"))
      else revoke_tx ctx principal_user_id i

  abbrev pub actor_rank : TenantContext → Option ℕ
  actor_rank ctx = elim ctx.tenant_role [
    | none ↦ staff_effective_rank ctx.permissions
    | some role ↦ some (role_rank role)
  ]

  abbrev pub with_role :
      TenantContext → (principal_user_id : ℕ) → Invitation → Option TenantRole → Db × Response
  with_role ctx principal_user_id i none =
      (db, internal_error (codes "Invalid role stored on invitation"))
  with_role ctx principal_user_id i (some target_role) =
      with_rank ctx principal_user_id i target_role (actor_rank ctx)

  -- `revoke_invitation`, from the row that was read, if its query did not fail.
  unfoldable pub revoke_read :
      TenantContext → (principal_user_id : ℕ) → Option Invitation → Db × Response
  revoke_read ctx principal_user_id none = (db, not_found (codes "Invitation not found"))
  revoke_read ctx principal_user_id (some i) =
      if not (is_revocable i)
      then (db, conflict (codes "Invitation cannot be revoked"))
      else with_role ctx principal_user_id i (role_from_text i.role)
