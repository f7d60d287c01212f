-- ===== src/Escalations/Steps.antt =====
-- The transactions that change the table `escalations`, one after another, each with its own
-- arguments and faults: those of backend/crates/modules/escalations/src/routing.rs and, in the steps
-- of the outbox, of src/events.rs.
pub mod Consistency
pub mod Held
pub mod Claims
pub mod Races
pub mod Placed
mod Examples
use customer_service_chat_sy.Base.{ℕ, Bool, List, Text}
use customer_service_chat_sy.Escalations.Rows.{Db, Call}
use customer_service_chat_sy.Escalations.Transaction.{transact}
use customer_service_chat_sy.Escalations.Routing.{route_new_escalation}
use customer_service_chat_sy.Escalations.Claim.{claim}
use customer_service_chat_sy.Escalations.Drain.{drain_one, drain_any}
use customer_service_chat_sy.Escalations.Closing.{ConversationEvent, process_event}

-- A transaction of the routing.
pub data RoutingStep (db : Db) : Db → Type 0 where
  routes :
      (fails : Call → Bool) (now tenant_id escalation_id conversation_id : ℕ) (reason : Text)
      (required_skill_ids : List ℕ) (required_skill_names : List Text) (actor_user_id : ℕ)
      (present_ids : List ℕ)
      → RoutingStep db (
          transact
            (route_new_escalation fails now tenant_id escalation_id conversation_id reason
              required_skill_ids required_skill_names actor_user_id present_ids)
            db)
  claims :
      (fails : Call → Bool) (now tenant_id escalation_id claimant_membership_id actor_user_id : ℕ)
      → RoutingStep db (
          transact
            (claim fails now tenant_id escalation_id claimant_membership_id actor_user_id)
            db)
  drains_one :
      (fails : Call → Bool) (now tenant_id membership_id actor_user_id : ℕ)
      → RoutingStep db (transact (drain_one fails now tenant_id membership_id actor_user_id) db)
  drains_any :
      (fails : Call → Bool) (now tenant_id actor_user_id : ℕ) (present_ids : List ℕ)
      → RoutingStep db (transact (drain_any fails now tenant_id actor_user_id present_ids) db)

pub data RoutingSteps (db : Db) : Db → Type 0 where
  here : RoutingSteps db db
  after : {db' db'' : Db} → RoutingSteps db db' → RoutingStep db' db'' → RoutingSteps db db''

-- A transaction of the routing, or one that an event of a conversation causes.
pub data Step (db : Db) : Db → Type 0 where
  routing : {db' : Db} → RoutingStep db db' → Step db db'
  processes :
      (fails : Call → Bool) (now tenant_id conversation_id : ℕ) (present_ids : List ℕ)
      (event : ConversationEvent)
      → Step db (transact (process_event fails now tenant_id conversation_id present_ids event) db)

pub data Steps (db : Db) : Db → Type 0 where
  start : Steps db db
  next : {db' db'' : Db} → Steps db db' → Step db' db'' → Steps db db''
