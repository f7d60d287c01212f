-- ===== src/Ai/AgentRules.antt =====
-- Which message is handed to a human, and by which rule:
-- backend/crates/modules/ai/src/agent_rules.rs. `str::to_lowercase`, with its Unicode tables, is a
-- parameter.
pub mod Matching
use customer_service_chat_sy.Base.{
  ℕ, Bool, ◌||◌, List, [], ◌∷◌, Text, codes, starts_with, any, if◌then◌else◌,
}

abbrev pub human_request_phrases : List Text
human_request_phrases =
    codes "talk to a human"
    ∷ codes "speak to a human"
    ∷ codes "speak to an agent"
    ∷ codes "talk to an agent"
    ∷ codes "real person"
    ∷ codes "human agent"
    ∷ codes "speak to someone"
    ∷ codes "customer service representative"
    ∷ codes "talk to a real person"
    ∷ codes "i want to speak to a human"
    ∷ []

pub data EscalationTrigger : Type 0 where
  human_request topic_keywords : EscalationTrigger

pub record EscalationRule : Type 0 where
  pub id : ℕ
  pub name : Text
  pub trigger : EscalationTrigger
  pub keywords : List Text
  pub required_skill_ids : List ℕ

pub data RuleMatch : Type 0 where
  no_rule baseline : RuleMatch
  of_tenant : (rule_id : ℕ) (rule_name : Text) (required_skill_ids : List ℕ) → RuleMatch

-- `str::contains`.
abbrev pub text_contains : Text → Text → Bool
text_contains [] t = starts_with [] t
text_contains (c ∷ s) t = starts_with (c ∷ s) t || text_contains s t

module _ (to_lowercase : Text → Text) where
  abbrev pub matches_human_request : Text → Bool
  matches_human_request message_body =
      any (text_contains (to_lowercase message_body)) human_request_phrases

  abbrev pub rule_matches : Text → EscalationRule → Bool
  rule_matches message_body rule = elim rule.trigger [
    | human_request ↦ matches_human_request message_body
    | topic_keywords ↦
        any (λ kw. text_contains (to_lowercase message_body) (to_lowercase kw)) rule.keywords
  ]

  -- The loop over the rules.
  unfoldable pub first_match : Text → List EscalationRule → RuleMatch
  first_match message_body [] = no_rule
  first_match message_body (rule ∷ rules) =
      if rule_matches message_body rule
      then of_tenant rule.id rule.name rule.required_skill_ids
      else first_match message_body rules

  unfoldable pub evaluate : Text → List EscalationRule → RuleMatch
  evaluate message_body rules =
      if matches_human_request message_body then baseline else first_match message_body rules
