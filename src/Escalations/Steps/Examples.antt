-- ===== src/Escalations/Steps/Examples.antt =====
-- Two agents of a tenant, one with a skill, and a conversation that is escalated.
use customer_service_chat_sy.Base.{
  ℕ, ◌≡◌, refl, false, [], ◌∷◌, none, some, all, true, ok, err, codes, arith,
}
use customer_service_chat_sy.Tenancy.Roster.{Membership}
use customer_service_chat_sy.Escalations.Presence.{Availability}
use customer_service_chat_sy.Escalations.Rows.{EscalationRow, Db, has_id}
use customer_service_chat_sy.Escalations.Transaction.{transact}
use customer_service_chat_sy.Escalations.Statements.{
  assign, set_escalated, resolve_actor_membership_id, notify_escalation_queued,
  notify_escalation_assigned,
}
use customer_service_chat_sy.Escalations.Candidates.{select_candidate}
use customer_service_chat_sy.Escalations.Candidates.Chosen.{IsChoice, select_candidate-IsChoice}
use customer_service_chat_sy.Escalations.Consistent.{IsConsistent, queued_where}
use customer_service_chat_sy.Escalations.Routing.{route_new_escalation}
use customer_service_chat_sy.Escalations.Claim.{claim, already_claimed}
use customer_service_chat_sy.Escalations.Drain.{matching_entry, select_entry, apply_entry}
use customer_service_chat_sy.Escalations.Drain.Oldest.{Selects, select_entry-Selects}
use customer_service_chat_sy.Escalations.Closing.{relabel_reassignment}
use customer_service_chat_sy.Escalations.Steps.{claims, here, routing, start, next}
use customer_service_chat_sy.Escalations.Steps.Consistency.{Steps-IsConsistent}
use customer_service_chat_sy.Escalations.Steps.Held.{AssignedTo}
use customer_service_chat_sy.Escalations.Steps.Claims.{claimed_once}
use customer_service_chat_sy.Escalations.Steps.Placed.{never}
use customer_service_chat_sy.Escalations.Steps.Placed.Outcome.{Placed, route_new-Placed}
use customer_service_chat_sy.Escalations.Steps.Races.{claim_overwritten, reassigned_again}

abbrev agent : (id user_id : ℕ) → Membership
agent id user_id = record {
  id = id;
  tenant_id = 1;
  user_id = user_id;
  role = codes "agent";
  status = codes "active";
  deleted = false;
}

abbrev available : ℕ → Availability
available id = record { tenant_id = 1; membership_id = id; state = codes "available" }

abbrev quiet : Db
quiet = record {
  escalations = [];
  memberships = agent 3 30 ∷ agent 4 40 ∷ [];
  availability = available 3 ∷ available 4 ∷ [];
  agent_skills = (record { tenant_id = 1; membership_id = 4; skill_id = 8 }) ∷ [];
  skills = (record { id = 8; tenant_id = 1; name = codes "refunds" }) ∷ [];
  conversations =
      (record {
        id = 5;
        tenant_id = 1;
        assigned_membership_id = none;
        status = codes "open";
        deleted = false;
        escalated_at = none;
      })
      ∷ [];
  audit_events = [];
  outbox_events = [];
}

-- An escalation that asks for refunds, when nobody is present.
abbrev waiting : Db
waiting =
    transact
      (route_new_escalation never 100 1 9 5 (codes "help") (8 ∷ []) (codes "refunds" ∷ []) 20 [])
      quiet

abbrev entry : EscalationRow
entry = record {
  id = 9;
  tenant_id = 1;
  conversation_id = 5;
  reason = codes "help";
  required_skill_ids = 8 ∷ [];
  required_skill_names = codes "refunds" ∷ [];
  status = codes "queued";
  routing_reason = none;
  matched_skill_ids = [];
  matched_skill_names = [];
  assigned_membership_id = none;
  escalated_at = 100;
  assigned_at = none;
  closed_at = none;
}

abbrev queue : Db
queue = record quiet { escalations = entry ∷ [] }

abbrev claimed_by : ℕ → Db
claimed_by m = transact (claim never 110 1 9 m 30) queue

queue-IsConsistent : IsConsistent queue.escalations
queue-IsConsistent = record {
  ids = λ id. ground arith;
  one_active = λ t c. ground arith;
  checked = refl;
}

waiting_queued : waiting.escalations ≡ queue.escalations
unfolding transact route_new_escalation select_candidate set_escalated resolve_actor_membership_id
    notify_escalation_queued
waiting_queued = refl

select_candidate-IsChoice_example :
    IsChoice quiet 1 (8 ∷ []) (3 ∷ 4 ∷ []) (select_candidate quiet 1 (8 ∷ []) (3 ∷ 4 ∷ []))
select_candidate-IsChoice_example = select_candidate-IsChoice quiet 1 (8 ∷ []) (3 ∷ 4 ∷ [])

Steps-IsConsistent_example : IsConsistent (claimed_by 3).escalations
Steps-IsConsistent_example =
    Steps-IsConsistent (next start (routing (claims never 110 1 9 3 30))) queue-IsConsistent

select_entry-Selects_example : Selects queue 1 4 never 120
select_entry-Selects_example = select_entry-Selects never 120 queue 1 4 refl refl

route_new-Placed_example :
    Placed 100 1 9 5 (codes "help") (8 ∷ []) (codes "refunds" ∷ []) 20 (3 ∷ 4 ∷ []) quiet (
      route_new_escalation never 100 1 9 5
        (codes "help")
        (8 ∷ [])
        (codes "refunds" ∷ [])
        20
        (3 ∷ 4 ∷ [])
        quiet)
route_new-Placed_example =
    route_new-Placed 100 1 9 5 (codes "help") (8 ∷ []) (codes "refunds" ∷ []) 20 (3 ∷ 4 ∷ []) quiet
      refl refl refl refl

claimed_once_example : claim never 130 1 9 4 40 (claimed_by 3) ≡ err (already_claimed 3)
unfolding claim transact assign notify_escalation_assigned
claimed_once_example =
    claimed_once never never 110 130 1 9 3 30 4 40 queue {db' = claimed_by 3} {db'' = claimed_by 3}
      queue-IsConsistent refl here refl refl

-- Member 4 was selected for the entry before member 3 claimed it.
abbrev drained_after : Db
drained_after = transact (apply_entry never 120 1 4 0 entry) (claimed_by 3)

claim_overwritten_example :
    (all (queued_where (has_id 9)) queue.escalations ≡ true)
    × AssignedTo 1 9 3 (claimed_by 3).escalations
    × AssignedTo 1 9 4 drained_after.escalations
unfolding claim transact select_entry matching_entry apply_entry assign set_escalated
    resolve_actor_membership_id notify_escalation_assigned
claim_overwritten_example =
    claim_overwritten never never 110 120 1 3 30 4 0 {entry = entry} queue {selected = queue}
      {db' = claimed_by 3} {db'' = drained_after} queue-IsConsistent refl refl refl

abbrev by_hand : EscalationRow
by_hand = record entry {
  status = codes "assigned";
  routing_reason = some (codes "manual_reassignment");
  assigned_membership_id = some 3;
  assigned_at = some 110;
}

abbrev reassigned_db : Db
reassigned_db = record quiet { escalations = by_hand ∷ [] }

reassigned-IsConsistent : IsConsistent reassigned_db.escalations
reassigned-IsConsistent = record {
  ids = λ id. ground arith;
  one_active = λ t c. ground arith;
  checked = refl;
}

reassigned_again_example :
    relabel_reassignment never 150 1 5 (some 4) reassigned_db ≡ ok (tt, reassigned_db)
reassigned_again_example =
    reassigned_again never 150 1 5 4 reassigned_db reassigned-IsConsistent refl refl refl refl refl
