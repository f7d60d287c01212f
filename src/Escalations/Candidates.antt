-- ===== src/Escalations/Candidates.antt =====
-- The choice of a member for an escalation: `select_candidate_in_tx` of
-- backend/crates/modules/escalations/src/queries.rs. `ORDER BY … LIMIT 1` is the row that no other
-- precedes, and the join with `agent_availability` a test, as its key is the member.
pub mod Ranked
pub mod Chosen
use customer_service_chat_sy.Base.{
  ℕ, Bool, not, ◌&&◌, ◌||◌, List, [], ◌∷◌, map, Option, none, some, Text, codes, eqb, ltb, ◌==◌,
  text_eq, ℕ_eq, if◌then◌else◌, length, count, any, retain, contains,
}
use customer_service_chat_sy.Tenancy.Roster.{Membership}
use customer_service_chat_sy.Escalations.Presence.{is_available_row}
use customer_service_chat_sy.Escalations.Rows.{AgentSkill, Conversation, Db, is_assignee}

pub record Candidate : Type 0 where
  pub membership_id : ℕ
  pub match_count : ℕ
  pub matched_ids : List ℕ
  pub load_count : ℕ

abbrev pub can_take_over : Text → Bool
can_take_over role =
    role == codes "owner"
    || (role == codes "admin" || (role == codes "manager" || role == codes "agent"))

-- The conditions of the outer `WHERE`.
unfoldable pub is_eligible : Db → (tenant_id : ℕ) → (present_ids : List ℕ) → Membership → Bool
unfolding contains
is_eligible db tenant_id present_ids m =
    eqb m.tenant_id tenant_id
    && (m.status == codes "active"
        && (not m.deleted
            && (can_take_over m.role
                && (any (is_available_row tenant_id m.id) db.availability
                    && contains present_ids m.id))))

abbrev pub is_matching :
    (tenant_id membership_id : ℕ) (required_skill_ids : List ℕ) → AgentSkill → Bool
is_matching tenant_id membership_id required_skill_ids s =
    eqb s.tenant_id tenant_id
    && (eqb s.membership_id membership_id && contains required_skill_ids s.skill_id)

-- `c.status IN ('open', 'pending') AND c.deleted_at IS NULL`, of the member's conversations.
abbrev pub is_load : (tenant_id membership_id : ℕ) → Conversation → Bool
is_load tenant_id membership_id c =
    eqb c.tenant_id tenant_id
    && (is_assignee c.assigned_membership_id membership_id
        && ((c.status == codes "open" || c.status == codes "pending") && not c.deleted))

unfoldable pub candidate_of :
    Db → (tenant_id : ℕ) → (required_skill_ids : List ℕ) → Membership → Candidate
unfolding contains
candidate_of db tenant_id required_skill_ids m =
    let matched = retain (is_matching tenant_id m.id required_skill_ids) db.agent_skills in
    record {
      membership_id = m.id;
      match_count = length matched;
      matched_ids = map (λ (s : AgentSkill). s.skill_id) matched;
      load_count = count (is_load tenant_id m.id) db.conversations;
    }

-- `ORDER BY match_count DESC, load_count ASC, tm.id ASC`.
unfoldable pub precedes : Candidate → Candidate → Bool
precedes a b =
    ltb b.match_count a.match_count
    || (eqb a.match_count b.match_count
        && (ltb a.load_count b.load_count
            || (eqb a.load_count b.load_count && ltb a.membership_id b.membership_id)))

abbrev pub first_of : Candidate → Option Candidate → Candidate
first_of a none = a
first_of a (some b) = if precedes b a then b else a

unfoldable pub first : List Candidate → Option Candidate
first [] = none
first (a ∷ rest) = some (first_of a (first rest))

-- `select_candidate_in_tx`, when the database does not fail.
unfoldable pub select_candidate :
    Db → (tenant_id : ℕ) → (required_skill_ids present_ids : List ℕ) → Option Candidate
unfolding first is_eligible candidate_of
select_candidate db tenant_id required_skill_ids present_ids = first (
    map (candidate_of db tenant_id required_skill_ids)
      (retain (is_eligible db tenant_id present_ids) db.memberships))
