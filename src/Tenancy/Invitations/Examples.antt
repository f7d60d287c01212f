-- ===== src/Tenancy/Invitations/Examples.antt =====
-- An invitation at concrete inputs.
use customer_service_chat_sy.Base.{◌≤◌, false, ◌≡◌, refl, [], ◌∷◌, none, some, codes, text_beq, eqb}
use customer_service_chat_sy.Tenancy.Invitations.{
  Invitation, InvitationRead, Db, success, gone, External, Signed, AcceptInvitationPayload,
  accept_read, read_by_token,
}
use customer_service_chat_sy.Tenancy.Invitations.Once.{
  chances, Steps, here, next, accepts, accepted_once,
}
use customer_service_chat_sy.Tenancy.Invitations.Entered.{Enters, accept_read-Enters}
use customer_service_chat_sy.Tenancy.Invitations.Accepted.{
  no_failure, IsOpen, after_acceptance, accept_read-success,
}

abbrev plain : External
plain = record { to_lowercase = λ t. t; is_whitespace = λ c. eqb c 32; same_email = text_beq }

abbrev invitation : Invitation
invitation = record {
  id = 4;
  tenant_id = 7;
  email = codes "a@b.c";
  role = codes "agent";
  token_hash = codes "h";
  status = codes "pending";
  expires_at = 100;
}

abbrev tables : Db
tables = record {
  invitations = invitation ∷ [];
  tenants = record { id = 7; status = codes "active"; deleted = false } ∷ [];
  users = [];
  memberships = [];
  audit_events = [];
}

abbrev read : InvitationRead
read = record { invitation = invitation; tenant_status = codes "active" }

abbrev guest : Signed
guest = record { user_id = 9; email = codes "a@b.c" }

abbrev nothing_given : AcceptInvitationPayload
nothing_given = record { display_name = none; password = none }

found_by_token : read_by_token tables (codes "h") ≡ some read
unfolding read_by_token
found_by_token = refl

read-IsOpen : IsOpen plain tables 50 60 read guest
read-IsOpen = record {
  active_then = refl;
  pending_then = refl;
  in_time = refl;
  row = invitation;
  found = refl;
  valid = refl;
  active_now = refl;
  own_email = refl;
  no_member = refl;
}

open_invitation_accepted :
    accept_read plain no_failure tables 60 50 (some read) (some guest) nothing_given [] 0 1
    ≡ (after_acceptance tables 60 invitation guest 1, success)
open_invitation_accepted =
    accept_read-success plain tables 50 60 read guest nothing_given [] 0 1 read-IsOpen

accept_read-Enters_example :
    Enters plain tables 60 invitation
      (some guest)
      []
      0
      1
      (accept_read plain no_failure tables 60 50 (some read) (some guest) nothing_given [] 0 1)
accept_read-Enters_example =
    accept_read-Enters plain no_failure tables 50 60 read (some guest) nothing_given [] 0 1

-- The same row, read before, does not serve twice.
abbrev once : Db
once = (accept_read plain no_failure tables 60 50 (some read) (some guest) nothing_given [] 0 1).0

abbrev twice : Db
twice = (accept_read plain no_failure once 61 50 (some read) (some guest) nothing_given [] 0 2).0

second_is_gone :
    (accept_read plain no_failure
      (after_acceptance tables 60 invitation guest 1)
      61
      50
      (some read)
      (some guest)
      nothing_given
      []
      0
      2).1
    ≡ gone (codes "Invitation is no longer valid")
unfolding accept_read
second_is_gone = refl

two-Steps : Steps plain tables twice
two-Steps =
    next (next here (accepts no_failure 60 50 (some read) (some guest) nothing_given [] 0 1))
      (accepts no_failure 61 50 (some read) (some guest) nothing_given [] 0 2)

accepted_once_example : chances 4 twice ≤ chances 4 tables
accepted_once_example = accepted_once 4 two-Steps
