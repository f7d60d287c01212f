-- ===== src/Tenancy/Roster.antt =====
-- The rows of `tenant_memberships` and the audit events of backend/crates/modules/tenancy/src/audit.rs
-- that the handlers of this directory write, with the columns that they read or set.
use customer_service_chat_sy.Base.{ℕ, Bool, not, ◌&&◌, List, Text, codes, eqb, ◌==◌, text_eq}

pub record Membership : Type 0 where
  pub id : ℕ
  pub tenant_id : ℕ
  pub user_id : ℕ
  pub role : Text
  pub status : Text
  pub deleted : Bool

pub data MemberEvent : Type 0 where
  member_role_changed :
      (actor_user_id tenant_id membership_id : ℕ) (old_role new_role : Text) → MemberEvent
  member_disabled :
      (actor_user_id tenant_id membership_id : ℕ) (role old_status new_status : Text) → MemberEvent
  member_enabled :
      (actor_user_id tenant_id membership_id : ℕ) (role old_status new_status : Text) → MemberEvent

pub record Db : Type 0 where
  pub memberships : List Membership
  pub audit_events : List MemberEvent

-- `id = $ AND tenant_id = $ AND deleted_at IS NULL`.
abbrev pub is_member : (tenant_id id : ℕ) → Membership → Bool
is_member tenant_id id m = eqb m.id id && (eqb m.tenant_id tenant_id && not m.deleted)

-- `tenant_id = $ AND role = 'owner' AND status = 'active' AND deleted_at IS NULL`.
abbrev pub is_active_owner : (tenant_id : ℕ) → Membership → Bool
is_active_owner tenant_id m =
    eqb m.tenant_id tenant_id
    && (m.role == codes "owner" && (m.status == codes "active" && not m.deleted))

abbrev pub set_role : Text → Membership → Membership
set_role role m = record m { role = role }

abbrev pub set_status : Text → Membership → Membership
set_status status m = record m { status = status }

-- What the API answers.
pub data Response : Type 0 where
  updated : Membership → Response  -- 200
  unprocessable_entity : (field : Text) → Response  -- 422
  unauthorized : (message : Text) → Response  -- 403
  not_found : (message : Text) → Response  -- 404
  conflict : (message : Text) → Response  -- 409
  internal_error : (message : Text) → Response  -- 500
