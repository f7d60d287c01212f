-- ===== src/Escalations/Rows.antt =====
-- The tables that the routing of escalations reads and writes, as in
-- backend/migrations/0037_escalations.sql and the row types of
-- backend/crates/modules/escalations/src/queries.rs, with the columns that it uses.
use customer_service_chat_sy.Base.{
  ℕ, Bool, false, not, ◌&&◌, ◌||◌, List, Option, none, some, Text, codes, eqb, ◌==◌, text_eq,
}
use customer_service_chat_sy.Tenancy.Roster.{Membership}
use customer_service_chat_sy.Escalations.Presence.{Availability}

pub record EscalationRow : Type 0 where
  pub id : ℕ
  pub tenant_id : ℕ
  pub conversation_id : ℕ
  pub reason : Text
  pub required_skill_ids : List ℕ
  pub required_skill_names : List Text
  pub status : Text
  pub routing_reason : Option Text
  pub matched_skill_ids : List ℕ
  pub matched_skill_names : List Text
  pub assigned_membership_id : Option ℕ
  pub escalated_at : ℕ
  pub assigned_at : Option ℕ
  pub closed_at : Option ℕ

pub record AgentSkill : Type 0 where
  pub tenant_id : ℕ
  pub membership_id : ℕ
  pub skill_id : ℕ

-- A row of `skills`; the table is listed in the order of its ids.
pub record Skill : Type 0 where
  pub id : ℕ
  pub tenant_id : ℕ
  pub name : Text

pub record Conversation : Type 0 where
  pub id : ℕ
  pub tenant_id : ℕ
  pub assigned_membership_id : Option ℕ
  pub status : Text
  pub deleted : Bool
  pub escalated_at : Option ℕ

-- The events of src/audit.rs, and `record_assignment_changed` of the conversations.
pub data AuditEvent : Type 0 where
  escalation_created :
      (actor_user_id tenant_id escalation_id conversation_id : ℕ) (reason : Text) → AuditEvent
  escalation_assigned :
      (actor_user_id tenant_id escalation_id : ℕ) (routing_reason : Text)
      (matched_skills : List Text) (load_count assigned_membership_id : ℕ)
      → AuditEvent
  escalation_queued : (actor_user_id tenant_id escalation_id : ℕ) → AuditEvent
  escalation_claimed : (actor_user_id tenant_id escalation_id : ℕ) → AuditEvent
  escalation_closed : (tenant_id escalation_id : ℕ) (cause : Text) → AuditEvent
  assignment_changed :
      (actor_user_id tenant_id conversation_id : ℕ) (old_membership_id new_membership_id : Option ℕ)
      → AuditEvent

-- The rows of `outbox_events`, with what their payloads hold.
pub data OutboxEvent : Type 0 where
  conversation_assignment_changed :
      (tenant_id conversation_id : ℕ) (old_membership_id new_membership_id : Option ℕ)
      (actor_membership_id : Option ℕ) (origin : Text)
      → OutboxEvent
  notification_requested :
      (tenant_id escalation_id conversation_id : ℕ)
      (actor_membership_id target_membership_id : Option ℕ)
      → OutboxEvent
  notification_resolved : (tenant_id escalation_id resolved_by_membership_id : ℕ) → OutboxEvent

pub record Db : Type 0 where
  pub escalations : List EscalationRow
  pub memberships : List Membership
  pub availability : List Availability
  pub agent_skills : List AgentSkill
  pub skills : List Skill
  pub conversations : List Conversation
  pub audit_events : List AuditEvent
  pub outbox_events : List OutboxEvent

-- The statements of a transaction at which the database may fail.
pub data Call : Type 0 where
  takes_lock : Call
  inserts_escalation : Call
  selects_candidate : Call
  selects_matching : Call
  selects_oldest : Call
  reads_skill_names : Call
  updates_escalation : Call
  reads_escalation : Call
  reads_conversation : Call
  reads_assignee : Call
  reads_membership : Call
  updates_conversation : Call
  emits_assignment : Call
  sets_escalated : Call
  records_created : Call
  records_assigned : Call
  records_queued : Call
  records_claimed : Call
  records_closed : Call
  records_assignment : Call
  reads_actor : Call
  emits_requested : Call
  emits_resolved : Call
  relabels_escalation : Call

-- `sqlx::Error`.
pub data SqlError : Type 0 where
  failed : Call → SqlError
  violates : (constraint : Text) → SqlError
  row_not_found : SqlError
  protocol : SqlError

abbrev pub has_id : (id : ℕ) → EscalationRow → Bool
has_id id e = eqb e.id id

abbrev pub is_queued : EscalationRow → Bool
is_queued e = e.status == codes "queued"

abbrev pub is_assigned : EscalationRow → Bool
is_assigned e = e.status == codes "assigned"

-- `status IN ('queued', 'assigned')`, the rows of the index `escalations_one_active_uniq`.
abbrev pub is_active_for : (tenant_id conversation_id : ℕ) → EscalationRow → Bool
is_active_for tenant_id conversation_id e =
    eqb e.tenant_id tenant_id
    && (eqb e.conversation_id conversation_id && (is_queued e || is_assigned e))

abbrev pub is_active_member : (tenant_id membership_id : ℕ) → Membership → Bool
is_active_member tenant_id membership_id m =
    eqb m.id membership_id
    && (eqb m.tenant_id tenant_id && (m.status == codes "active" && not m.deleted))

-- `assigned_membership_id = $`, which is not true of NULL.
abbrev pub is_assignee : Option ℕ → (membership_id : ℕ) → Bool
is_assignee none membership_id = false
is_assignee (some assigned) membership_id = eqb assigned membership_id
