-- ===== src/Tenancy/Invitations/Entered.antt =====
-- Whom an acceptance makes a member, whatever fails.
use customer_service_chat_sy.Base.{
  ℕ, ◌≡◌, refl, Bool, true, false, not, ◌&&◌, ◌||◌, List, [], ◌∷◌, ◌++◌, Option, none, some, Text,
  codes, eqb, ltb, text_eq, ◌==◌, any, find, count, update_where, if◌then◌else◌, arith,
}
use customer_service_chat_sy.Tenancy.Roster.{Membership}
use customer_service_chat_sy.Tenancy.Invitations.{
  Invitation, InvitationRead, User, invitation_accepted, Db, Response, success, External, Faults,
  Signed, AcceptInvitationPayload, is_tenant, is_active, is_consumable, is_pending, is_live_member,
  set_status, consume, finish, no_member, existing, has_account, is_given, is_valid_row,
  is_invitation, accept_anonymous, accept_as, accept_locked, accept_read,
}

module _ {X : Type 0} (P : X → Type 0) where
  if-both : (b : Bool) {y z : X} → (b ≡ true → P y) → (b ≡ false → P z) → P (if b then y else z)
  if-both true f g = f refl
  if-both false f g = g refl

abbrev pub is_success : Response → Bool
is_success success = true
is_success _ = false

count-settled :
    (p : Invitation → Bool) (f : Invitation → Invitation) (is : List Invitation)
    → ((i : Invitation) → p (f i) ≡ false)
    → count p (update_where p f is) ≡ 0
count-settled p f [] h = refl
count-settled p f (i ∷ is) h = ground (arith, h i, count-settled p f is h)

module _ (x : External) (db : Db) (now : ℕ) (i : Invitation) (principal : Option Signed)
    (display_name : Text) (new_user_id membership_id : ℕ) where
  -- Who may use the invitation, and the users then: someone signed in with its email, or a new account
  -- with its email, which no account had.
  pub data Entitled : (user_id : ℕ) → List User → Type 0 where
    signed :
        {s : Signed}
        → principal ≡ some s
        → (x.to_lowercase s.email == x.to_lowercase i.email) ≡ true
        → Entitled s.user_id db.users
    registered :
        principal ≡ none
        → any (λ (u : User). x.same_email u.email i.email) db.users ≡ false
        → Entitled new_user_id (
            db.users
            ++ record { id = new_user_id; email = i.email; display_name = display_name } ∷ [])

  -- An acceptance changes nothing and does not succeed, or it makes one member.
  pub data Enters : Db × Response → Type 0 where
    refused : {r : Response} → is_success r ≡ false → Enters (db, r)
    joined :
        {db' : Db} {r : Response} (user_id : ℕ)
        → Entitled user_id db'.users
        → is_active (find (is_tenant i.tenant_id) db.tenants) ≡ true
        → eqb (count (is_consumable i.id i.tenant_id now) db.invitations) 0 ≡ false
        → count (is_consumable i.id i.tenant_id now) db'.invitations ≡ 0
        → any (is_live_member i.tenant_id user_id) db.memberships ≡ false
        → db'.memberships
          ≡ db.memberships
            ++ record {
              id = membership_id;
              tenant_id = i.tenant_id;
              user_id = user_id;
              role = i.role;
              status = codes "active";
              deleted = false;
            }
              ∷ []
        → db'.audit_events
          ≡ db.audit_events
            ++ invitation_accepted user_id i.tenant_id i.id i.email i.role user_id ∷ []
        → Enters (db', r)

  module _ (faults : Faults) where
    finish-Enters :
        (db' : Db) → ((r : Response) → Enters (db', r)) → Enters (finish x faults db now db')
    finish-Enters db' h =
        if-both Enters (not faults.records_audit) (λ e. refused refl)
          λ e. if-both Enters (not faults.commits) (λ e. refused refl) λ e. h _

    consume-Enters :
        (failure : Text) (users : List User) (user_id : ℕ)
        → Entitled user_id users
        → is_active (find (is_tenant i.tenant_id) db.tenants) ≡ true
        → Enters (consume x faults db now failure i users user_id membership_id)
    consume-Enters failure users user_id may active =
        if-both Enters (not faults.consumes) (λ e. refused refl)
          λ e.
            if-both Enters (eqb (count (is_consumable i.id i.tenant_id now) db.invitations) 0)
              (λ e. refused refl)
              λ still.
                if-both Enters
                  (not faults.inserts_membership
                    || any (is_live_member i.tenant_id user_id) db.memberships)
                  (λ e. refused refl)
                  λ free. finish-Enters _ λ r.
                    joined user_id may active still
                      (count-settled (is_consumable i.id i.tenant_id now)
                        (set_status (codes "accepted")) db.invitations (λ j. ground arith))
                      (ground arith) refl refl

    no_member-Enters :
        (s : Signed) (m : Option Membership)
        → Entitled s.user_id db.users
        → is_active (find (is_tenant i.tenant_id) db.tenants) ≡ true
        → Enters (no_member x faults db now i s membership_id m)
    no_member-Enters s (some m) may active =
        refused (
          if-both (λ r. is_success r ≡ false) (m.status == codes "disabled") (λ e. refl)
            (λ e. refl))
    no_member-Enters s none may active = consume-Enters _ db.users s.user_id may active

    anonymous-Enters :
        (payload : AcceptInvitationPayload)
        → principal ≡ none
        → is_active (find (is_tenant i.tenant_id) db.tenants) ≡ true
        → Enters (accept_anonymous x faults db now i payload display_name new_user_id membership_id)
    anonymous-Enters payload nobody active =
        if-both Enters
          (not (
            is_given x faults db now payload.display_name
            && is_given x faults db now payload.password))
          (λ e. refused refl)
          λ e.
            if-both Enters (faults.reads_user && has_account x faults db now i.email)
              (λ e. refused refl)
              λ e.
                if-both Enters (not faults.hashes_password) (λ e. refused refl)
                  λ e.
                    if-both Enters (has_account x faults db now i.email) (λ e. refused refl)
                      λ new.
                        if-both Enters (not faults.inserts_user) (λ e. refused refl)
                          λ e. consume-Enters _ _ new_user_id (registered nobody new) active

    as-Enters :
        (p : Option Signed) (payload : AcceptInvitationPayload)
        → principal ≡ p
        → is_active (find (is_tenant i.tenant_id) db.tenants) ≡ true
        → Enters (accept_as x faults db now i p payload display_name new_user_id membership_id)
    as-Enters none payload e active = anonymous-Enters payload e active
    as-Enters (some s) payload e active =
        if-both Enters (not (x.to_lowercase s.email == x.to_lowercase i.email)) (λ f. refused refl)
          λ own.
            no_member-Enters s (existing x faults db now i.tenant_id s.user_id)
              (signed e (ground arith)) active

    locked-Enters :
        (payload : AcceptInvitationPayload)
        → Enters (
            accept_locked x faults db now i principal payload display_name new_user_id
              membership_id)
    locked-Enters payload =
        if-both Enters (not faults.begins) (λ e. refused refl)
          λ e.
            if-both Enters (not faults.locks) (λ e. refused refl)
              λ e.
                if-both Enters
                  (not (is_valid_row now (find (is_invitation i.id i.tenant_id) db.invitations)))
                  (λ e. refused refl)
                  λ e.
                    if-both Enters
                      (not (
                        faults.reads_tenant && is_active (find (is_tenant i.tenant_id) db.tenants)))
                      (λ e. refused refl) λ active. as-Enters principal payload refl (ground arith)

-- Whatever fails, an acceptance either changes nothing and does not succeed, or it makes one member of
-- the invitation's tenant with the invitation's role, settles the open invitation and records one event
-- of it. It does the latter only if the tenant is active, the invitation was still open, and the new
-- member had no membership there and is either signed in with the invitation's email or a new account
-- with that email, which had none.
pub accept_read-Enters :
    (x : External) (faults : Faults) (db : Db) (then_now now : ℕ) (r : InvitationRead)
    (principal : Option Signed) (payload : AcceptInvitationPayload) (display_name : Text)
    (user_id membership_id : ℕ)
    → Enters x db now r.invitation principal display_name user_id membership_id (
        accept_read x faults db now then_now
          (some r)
          principal
          payload
          display_name
          user_id
          membership_id)
unfolding accept_read
accept_read-Enters x faults db then_now now r principal payload display_name user_id membership_id =
    let P = Enters x db now r.invitation principal display_name user_id membership_id in
    if-both P (not (r.tenant_status == codes "active")) (λ e. refused refl)
      λ e.
        if-both P
          (r.invitation.status == codes "expired"
            || (is_pending r.invitation && ltb r.invitation.expires_at then_now))
          (λ e. refused refl)
          λ e.
            if-both P (r.invitation.status == codes "revoked") (λ e. refused refl)
              λ e.
                if-both P (not (is_pending r.invitation)) (λ e. refused refl)
                  λ e.
                    locked-Enters x db now r.invitation principal display_name user_id membership_id
                      faults payload
