-- ===== src/Tenancy/Invitations/Once.antt =====
-- An invitation is accepted at most once, and never once it is revoked.
use customer_service_chat_sy.Base.{
  ℕ, ◌+◌, ◌≤◌, Bool, true, false, not, ◌&&◌, ◌||◌, ◌≡◌, refl, inl, inr, List, [], ◌∷◌, ◌++◌, Option,
  none, some, Text, codes, eqb, ltb, text_eq, ◌==◌, if◌then◌else◌, Bool-cases, any, find, count,
  count-append, update_where, arith,
}
use customer_service_chat_sy.Authz.Role.{TenantRole, role_from_text}
use customer_service_chat_sy.Tenancy.Ranks.{TenantContext, role_rank}
use customer_service_chat_sy.Tenancy.Roster.{Membership}
use customer_service_chat_sy.Tenancy.Invitations.{
  Invitation, User, InvitationEvent, invitation_accepted, invitation_revoked, Db, Response,
  External, Faults, Signed, AcceptInvitationPayload, InvitationRead, is_tenant, is_active,
  is_invitation, is_pending, is_consumable, is_valid_row, set_status, is_live_member, finish,
  consume, existing, no_member, accept_signed, is_given, has_account, accept_anonymous, accept_as,
  accept_locked, accept_read, is_revocable, is_revocable_row, revoke_tx, with_rank, actor_rank,
  with_role, revoke_read,
}

abbrev pub is_acceptance_of : (id : ℕ) → InvitationEvent → Bool
is_acceptance_of id (invitation_accepted actor tenant_id invitation_id email role user_id) =
    eqb invitation_id id
is_acceptance_of id (invitation_revoked actor tenant_id invitation_id email role) = false

abbrev pub is_pending_of : (id : ℕ) → Invitation → Bool
is_pending_of id i = eqb i.id id && is_pending i

-- How often the invitation was accepted, and how often it still can be.
abbrev pub chances : ℕ → Db → ℕ
chances id db =
    count (is_acceptance_of id) db.audit_events + count (is_pending_of id) db.invitations

-- Rows that are changed and pass the test no longer are taken off its count.
count-closed :
    (p q : Invitation → Bool) (f : Invitation → Invitation) (is : List Invitation)
    → ((i : Invitation) → q (f i) ≡ false)
    → count q (update_where p f is) + count (λ i. p i && q i) is ≡ count q is
count-closed p q f [] h = refl
count-closed p q f (i ∷ is) h = ground (arith, h i, count-closed p q f is h)

count-within :
    (p q : Invitation → Bool) (is : List Invitation)
    → ((i : Invitation) → p i ≡ true → q i ≡ true)
    → count (λ i. p i && q i) is ≡ count p is
count-within p q [] h = refl
count-within p q (i ∷ is) h = ground (arith, h i, count-within p q is h)

module _ (id : ℕ) (x : External) (faults : Faults) (db : Db) (now : ℕ) where
  data Bounded : Db × Response → Type 0 where
    bounded : {db' : Db} {r : Response} → chances id db' ≤ chances id db → Bounded (db', r)

  if_Bounded :
      (b : Bool) {y z : Db × Response}
      → (b ≡ true → Bounded y)
      → (b ≡ false → Bounded z)
      → Bounded (if b then y else z)
  if_Bounded true f g = f refl
  if_Bounded false f g = g refl

  same : {r : Response} → Bounded (db, r)
  same = bounded (omega arith)

  finish-Bounded :
      (db' : Db) → chances id db' ≤ chances id db → Bounded (finish x faults db now db')
  finish-Bounded db' h =
      if_Bounded (not faults.records_audit) (λ failed. same)
        (λ recorded. if_Bounded (not faults.commits) (λ failed. same) (λ committed. bounded h))

  accepted_rows :
      (i : Invitation)
      → eqb (count (is_consumable i.id i.tenant_id now) db.invitations) 0 ≡ false
      → count (is_pending_of id) (
            update_where
              (is_consumable i.id i.tenant_id now)
              (set_status (codes "accepted"))
              db.invitations)
          + (if eqb i.id id then 1 else 0)
        ≤ count (is_pending_of id) db.invitations
  accepted_rows i found =
      let closed =
        count-closed (is_consumable i.id i.tenant_id now) (is_pending_of id)
          (set_status (codes "accepted")) db.invitations (λ j. ground arith) in
      elim (Bool-cases (eqb i.id id)) [
        | inl here ↦
            let within =
              count-within (is_consumable i.id i.tenant_id now) (is_pending_of id) db.invitations
                (λ j open_row. ground (arith, here)) in
            rw here (ground (arith, closed, within, found))
        | inr other ↦ rw other (omega (arith, closed))
      ]

  consume-Bounded :
      (failure : Text) (i : Invitation) (users : List User) (user_id membership_id : ℕ)
      → Bounded (consume x faults db now failure i users user_id membership_id)
  consume-Bounded failure i users user_id membership_id =
      if_Bounded (not faults.consumes) (λ failed. same)
        (λ consumes.
          if_Bounded (eqb (count (is_consumable i.id i.tenant_id now) db.invitations) 0)
            (λ none_left. same)
            (λ found.
              if_Bounded
                (not faults.inserts_membership
                  || any (is_live_member i.tenant_id user_id) db.memberships)
                (λ failed. same)
                (λ inserted. finish-Bounded _ (
                  omega (
                    arith,
                    accepted_rows i found,
                    count-append (is_acceptance_of id) db.audit_events
                        (invitation_accepted user_id i.tenant_id i.id i.email i.role user_id ∷ []),
                  )))))

  no_member-Bounded :
      (i : Invitation) (principal : Signed) (membership_id : ℕ) (member : Option Membership)
      → Bounded (no_member x faults db now i principal membership_id member)
  no_member-Bounded i principal membership_id (some m) = same
  no_member-Bounded i principal membership_id none =
      consume-Bounded (codes "Database update failed") i db.users principal.user_id membership_id

  accept_signed-Bounded :
      (i : Invitation) (principal : Signed) (membership_id : ℕ)
      → Bounded (accept_signed x faults db now i principal membership_id)
  accept_signed-Bounded i principal membership_id =
      if_Bounded (not (x.to_lowercase principal.email == x.to_lowercase i.email)) (λ other. same)
        (λ own.
          no_member-Bounded i principal membership_id
            (existing x faults db now i.tenant_id principal.user_id))

  accept_anonymous-Bounded :
      (i : Invitation) (payload : AcceptInvitationPayload) (display_name : Text)
      (user_id membership_id : ℕ)
      → Bounded (accept_anonymous x faults db now i payload display_name user_id membership_id)
  accept_anonymous-Bounded i payload display_name user_id membership_id =
      if_Bounded
        (not (
          is_given x faults db now payload.display_name
          && is_given x faults db now payload.password))
        (λ invalid. same)
        (λ given.
          if_Bounded (faults.reads_user && has_account x faults db now i.email) (λ known. same)
            (λ new.
              if_Bounded (not faults.hashes_password) (λ failed. same)
                (λ hashed.
                  if_Bounded (has_account x faults db now i.email) (λ known. same)
                    (λ unique.
                      if_Bounded (not faults.inserts_user) (λ failed. same)
                        (λ inserted.
                          consume-Bounded (codes "Invitation update failed") i
                            (db.users
                              ++ record {
                                id = user_id;
                                email = i.email;
                                display_name = display_name;
                              }
                                ∷ [])
                            user_id membership_id)))))

  accept_as-Bounded :
      (i : Invitation) (principal : Option Signed) (payload : AcceptInvitationPayload)
      (display_name : Text) (user_id membership_id : ℕ)
      → Bounded (accept_as x faults db now i principal payload display_name user_id membership_id)
  accept_as-Bounded i (some principal) payload display_name user_id membership_id =
      accept_signed-Bounded i principal membership_id
  accept_as-Bounded i none payload display_name user_id membership_id =
      accept_anonymous-Bounded i payload display_name user_id membership_id

  accept_locked-Bounded :
      (i : Invitation) (principal : Option Signed) (payload : AcceptInvitationPayload)
      (display_name : Text) (user_id membership_id : ℕ)
      → Bounded
          (accept_locked x faults db now i principal payload display_name user_id membership_id)
  accept_locked-Bounded i principal payload display_name user_id membership_id =
      if_Bounded (not faults.begins) (λ failed. same)
        (λ begun.
          if_Bounded (not faults.locks) (λ failed. same)
            (λ locked.
              if_Bounded
                (not (is_valid_row now (find (is_invitation i.id i.tenant_id) db.invitations)))
                (λ invalid. same)
                (λ valid.
                  if_Bounded
                    (not
                      (faults.reads_tenant && is_active (find (is_tenant i.tenant_id) db.tenants)))
                    (λ inactive. same)
                    (λ active.
                      accept_as-Bounded i principal payload display_name user_id membership_id))))

  accept_read-Bounded :
      (then_now : ℕ) (read : Option InvitationRead) (principal : Option Signed)
      (payload : AcceptInvitationPayload) (display_name : Text) (user_id membership_id : ℕ)
      → Bounded (
          accept_read x faults db now then_now read principal payload display_name user_id
            membership_id)
  unfolding accept_read
  accept_read-Bounded then_now none principal payload display_name user_id membership_id = same
  accept_read-Bounded then_now (some r) principal payload display_name user_id membership_id =
      if_Bounded (not (r.tenant_status == codes "active")) (λ inactive. same)
        (λ active.
          if_Bounded
            (r.invitation.status == codes "expired"
              || (is_pending r.invitation && ltb r.invitation.expires_at then_now))
            (λ expired. same)
            (λ in_time.
              if_Bounded (r.invitation.status == codes "revoked") (λ revoked. same)
                (λ open_still.
                  if_Bounded (not (is_pending r.invitation)) (λ used. same)
                    (λ pending.
                      accept_locked-Bounded r.invitation principal payload display_name user_id
                        membership_id))))

  revoke_tx-Bounded :
      (ctx : TenantContext) (principal_user_id : ℕ) (i : Invitation)
      → Bounded (revoke_tx x faults db now ctx principal_user_id i)
  revoke_tx-Bounded ctx principal_user_id i =
      if_Bounded (not faults.begins) (λ failed. same)
        (λ begun.
          if_Bounded (not faults.consumes) (λ failed. same)
            (λ updates.
              if_Bounded
                (eqb (count (is_revocable_row x faults db now i.id ctx.tenant_id) db.invitations) 0)
                (λ closed. same)
                (λ found. finish-Bounded _ (
                  omega (
                    arith,
                    count-closed (is_revocable_row x faults db now i.id ctx.tenant_id)
                        (is_pending_of id) (set_status (codes "revoked")) db.invitations
                        (λ j. ground arith),
                    count-append (is_acceptance_of id) db.audit_events (
                        invitation_revoked principal_user_id ctx.tenant_id i.id i.email i.role
                        ∷ []),
                  )))))

  with_rank-Bounded :
      (ctx : TenantContext) (principal_user_id : ℕ) (i : Invitation) (role : TenantRole)
      (rank : Option ℕ)
      → Bounded (with_rank x faults db now ctx principal_user_id i role rank)
  with_rank-Bounded ctx principal_user_id i role none = same
  with_rank-Bounded ctx principal_user_id i role (some rank) =
      if_Bounded (ltb rank (role_rank role)) (λ denied. same)
        (λ allowed. revoke_tx-Bounded ctx principal_user_id i)

  with_role-Bounded :
      (ctx : TenantContext) (principal_user_id : ℕ) (i : Invitation) (role : Option TenantRole)
      → Bounded (with_role x faults db now ctx principal_user_id i role)
  with_role-Bounded ctx principal_user_id i none = same
  with_role-Bounded ctx principal_user_id i (some role) =
      with_rank-Bounded ctx principal_user_id i role (actor_rank x faults db now ctx)

  revoke_read-Bounded :
      (ctx : TenantContext) (principal_user_id : ℕ) (read : Option Invitation)
      → Bounded (revoke_read x faults db now ctx principal_user_id read)
  unfolding revoke_read
  revoke_read-Bounded ctx principal_user_id none = same
  revoke_read-Bounded ctx principal_user_id (some i) =
      if_Bounded (not (is_revocable x faults db now i)) (λ closed. same)
        (λ open_still. with_role-Bounded ctx principal_user_id i (role_from_text i.role))

  chances_of : {result : Db × Response} → Bounded result → chances id result.0 ≤ chances id db
  chances_of (bounded h) = h

-- One call of either handler, with whatever row it read before and whatever failures.
pub data Step (x : External) (db : Db) : Db → Type 0 where
  accepts :
      (faults : Faults) (now then_now : ℕ) (read : Option InvitationRead)
      (principal : Option Signed) (payload : AcceptInvitationPayload) (display_name : Text)
      (user_id membership_id : ℕ)
      → Step x db
          (accept_read x faults db now then_now read principal payload display_name user_id
            membership_id).0
  revokes :
      (faults : Faults) (now : ℕ) (ctx : TenantContext) (principal_user_id : ℕ)
      (read : Option Invitation)
      → Step x db (revoke_read x faults db now ctx principal_user_id read).0

pub data Steps (x : External) (db : Db) : Db → Type 0 where
  here : Steps x db db
  next : {db' db'' : Db} → Steps x db db' → Step x db' db'' → Steps x db db''

Step-chances :
    (id : ℕ) {x : External} {db db' : Db} → Step x db db' → chances id db' ≤ chances id db
Step-chances id {x} {db} (accepts faults now then_now read principal payload name user_id member) =
    chances_of id x faults db now
      (accept_read-Bounded id x faults db now then_now read principal payload name user_id member)
Step-chances id {x} {db} (revokes faults now ctx user_id read) =
    chances_of id x faults db now (revoke_read-Bounded id x faults db now ctx user_id read)

-- Through any acceptances and revocations, of rows read at any time, by anyone and whatever fails, the
-- number of acceptances of an invitation and of its rows that are still pending does not grow: an
-- invitation with one pending row is accepted at most once more, one that is revoked never.
pub accepted_once :
    (id : ℕ) {x : External} {db db' : Db} → Steps x db db' → chances id db' ≤ chances id db
accepted_once id here = omega arith
accepted_once id (next before step) = omega (arith, accepted_once id before, Step-chances id step)
