-- ===== src/Tenancy/Invitations/Accepted.antt =====
-- A signed-in user accepts a pending invitation.
use customer_service_chat_sy.Base.{
  ℕ, Bool, true, false, ◌&&◌, ◌≡◌, refl, List, [], ◌∷◌, ◌++◌, none, some, Text, codes, eqb, ltb,
  text_eq, ◌==◌, any, find, count, update_where, arith,
}
use customer_service_chat_sy.Tenancy.Roster.{Membership}
use customer_service_chat_sy.Tenancy.Invitations.{
  Invitation, InvitationRead, invitation_accepted, Db, success, External, Faults, Signed,
  AcceptInvitationPayload, is_tenant, is_active, is_invitation, is_valid_at, is_consumable,
  set_status, is_live_member, accept_read,
}

abbrev pub no_failure : Faults
no_failure = record {
  begins = true;
  locks = true;
  reads_tenant = true;
  reads_membership = true;
  reads_user = true;
  hashes_password = true;
  inserts_user = true;
  consumes = true;
  inserts_membership = true;
  records_audit = true;
  commits = true;
  answers = true;
}

-- What the invitation and the tables have to be.
pub record IsOpen (x : External) (db : Db) (then_now now : ℕ) (r : InvitationRead)
    (principal : Signed) : Type 0 where
  pub active_then : (r.tenant_status == codes "active") ≡ true
  pub pending_then : r.invitation.status ≡ codes "pending"
  pub in_time : ltb r.invitation.expires_at then_now ≡ false
  pub row : Invitation
  pub found : find (is_invitation r.invitation.id r.invitation.tenant_id) db.invitations ≡ some row
  pub valid : is_valid_at now row ≡ true
  pub active_now : is_active (find (is_tenant r.invitation.tenant_id) db.tenants) ≡ true
  pub own_email : (x.to_lowercase principal.email == x.to_lowercase r.invitation.email) ≡ true
  pub no_member :
      find (is_live_member r.invitation.tenant_id principal.user_id) db.memberships ≡ none

any_of_find : (p : Membership → Bool) (ms : List Membership) → find p ms ≡ none → any p ms ≡ false
any_of_find p [] e = refl
any_of_find p (m ∷ ms) e = ground (arith, any_of_find p ms)

count-both :
    (p q : Invitation → Bool) (is : List Invitation) {i : Invitation}
    → find p is ≡ some i
    → q i ≡ true
    → eqb (count (λ j. p j && q j) is) 0 ≡ false
count-both p q [] e h = absurd (ground arith)
count-both p q (j ∷ is) {i} e h = ground (arith, count-both p q is {i = i})

-- The tables once the invitation has been accepted.
abbrev pub after_acceptance : Db → ℕ → Invitation → Signed → (membership_id : ℕ) → Db
after_acceptance db now i principal membership_id = record db {
  invitations =
      update_where (is_consumable i.id i.tenant_id now) (set_status (codes "accepted"))
        db.invitations;
  memberships =
      db.memberships
      ++ record {
        id = membership_id;
        tenant_id = i.tenant_id;
        user_id = principal.user_id;
        role = i.role;
        status = codes "active";
        deleted = false;
      }
        ∷ [];
  audit_events =
      db.audit_events
      ++ invitation_accepted principal.user_id i.tenant_id i.id i.email i.role principal.user_id
        ∷ [];
}

-- When nothing fails, a signed-in user whose email is the invitation's, who is not yet a member, and
-- whose invitation is still pending and in time when it is read and again under the lock, becomes an
-- active member with the invitation's role; the invitation is then accepted, and one event says so.
pub accept_read-success :
    (x : External) (db : Db) (then_now now : ℕ) (r : InvitationRead) (principal : Signed)
    (payload : AcceptInvitationPayload) (display_name : Text) (user_id membership_id : ℕ)
    → IsOpen x db then_now now r principal
    → accept_read x no_failure db now then_now
        (some r)
        (some principal)
        payload
        display_name
        user_id
        membership_id
      ≡ (after_acceptance db now r.invitation principal membership_id, success)
unfolding accept_read
accept_read-success x db then_now now r principal payload display_name user_id membership_id h =
    let consumable =
      count-both (is_invitation r.invitation.id r.invitation.tenant_id) (is_valid_at now)
        db.invitations h.found h.valid in
    let absent =
      any_of_find (is_live_member r.invitation.tenant_id principal.user_id) db.memberships
        h.no_member in
    rw h.active_then (
      rw h.pending_then (
        rw h.in_time (
          rw h.found (
            rw h.valid (
              rw h.active_now
                (rw h.own_email (rw h.no_member (rw consumable (rw absent refl)))))))))
