-- ===== src/Ai/Examples.antt =====
-- Messages evaluated, and the theorems at concrete inputs.
use customer_service_chat_sy.Base.{◌≡◌, refl, List, [], ◌∷◌, Text, codes}
use customer_service_chat_sy.Ai.AgentRules.{
  EscalationRule, human_request, topic_keywords, of_tenant, evaluate, first_match,
}

abbrev as_is : Text → Text
as_is s = s

abbrev rules : List EscalationRule
rules =
    (record {
      id = 1;
      name = codes "humans";
      trigger = human_request;
      keywords = [];
      required_skill_ids = 8 ∷ [];
    })
    ∷ (record {
      id = 2;
      name = codes "billing";
      trigger = topic_keywords;
      keywords = codes "invoice" ∷ [];
      required_skill_ids = 9 ∷ [];
    })
    ∷ []

asks_for_invoice :
    evaluate as_is (codes "my invoice") rules ≡ of_tenant 2 (codes "billing") (9 ∷ [])
unfolding evaluate first_match
asks_for_invoice = refl
