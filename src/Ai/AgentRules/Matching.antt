-- ===== src/Ai/AgentRules/Matching.antt =====
-- What the evaluation finds.
use mathlib.Core.List.{Memᴰ}
use mathlib.Core.List.Memᴰ
use customer_service_chat_sy.Base.{
  Bool, true, false, ◌≡◌, ◌≢◌, refl, sym, ap, ◌∙◌, ◌↔◌, inl, inr, List, [], ◌∷◌, ◌++◌, arith, Text,
  any, retain, if◌then◌else◌, Bool-cases, starts_with, starts_with-append,
}
use customer_service_chat_sy.Ai.AgentRules.{
  human_request, topic_keywords, EscalationRule, RuleMatch, baseline, of_tenant, text_contains,
  matches_human_request, rule_matches, first_match, evaluate, human_request_phrases,
}

true-not-false : ¬ (true ≡ false)
true-not-false h = ground arith

prefix_sound : (s t : Text) → starts_with s t ≡ true → (rest : Text) × (s ≡ t ++ rest)
prefix_sound s [] h = (s, refl)
prefix_sound [] (b ∷ t) h = absurd (ground arith)
prefix_sound (a ∷ s) (b ∷ t) h =
    let (rest, e) = prefix_sound s t (ground arith) in (rest, ground (arith, e))

-- The text occurs in the other.
abbrev pub OccursIn : (t s : Text) → Type 0
OccursIn t s = (before after : Text) × (s ≡ before ++ t ++ after)

contains_sound : (s t : Text) → text_contains s t ≡ true → OccursIn t s
contains_sound [] t h = let (rest, e) = prefix_sound [] t h in ([], rest, e)
contains_sound (c ∷ s) t h = elim (Bool-cases (starts_with (c ∷ s) t)) [
  | inl here ↦ let (rest, e) = prefix_sound (c ∷ s) t here in ([], rest, e)
  | inr later ↦
      let (before, after, e) = contains_sound s t (rw later at h) in
      (c ∷ before, after, ap (λ x. c ∷ x) e)
]

contains_complete : (before t after : Text) → text_contains (before ++ t ++ after) t ≡ true
contains_complete [] [] [] = refl
contains_complete [] [] (c ∷ after) = refl
contains_complete [] (c ∷ t) after = rw (starts_with-append (c ∷ t) after)
contains_complete (c ∷ before) t after = ground (arith, contains_complete before t after)

module _ (to_lowercase : Text → Text) where
  abbrev pub Mentions : Text → List Text → Type 0
  Mentions body phrases =
      (phrase : Text) × Memᴰ phrase phrases × OccursIn phrase (to_lowercase body)

  any_sound :
      (body : Text) (phrases : List Text)
      → any (text_contains (to_lowercase body)) phrases ≡ true
      → Mentions body phrases
  any_sound body [] h = absurd (ground arith)
  any_sound body (p ∷ ps) h = elim (Bool-cases (text_contains (to_lowercase body) p)) [
    | inl here ↦ (p, Memᴰ.head refl, contains_sound (to_lowercase body) p here)
    | inr later ↦ let (q, m, occurs) = any_sound body ps (rw later at h) in (q, Memᴰ.tail m, occurs)
  ]

  any_complete :
      (body : Text) (phrases : List Text)
      → Mentions body phrases
      → any (text_contains (to_lowercase body)) phrases ≡ true
  any_complete body [] (q, m, occurs) = absurd (Memᴰ.not-nil m)
  any_complete body (p ∷ ps) (q, m, (before, after, e)) = elim (Memᴰ.cases_cons m) [
    | inl here ↦
        let found : text_contains (to_lowercase body) p ≡ true =
          rw e (rw here (contains_complete before p after)) in
        ground (arith, found)
    | inr later ↦ ground (arith, any_complete body ps (q, later, (before, after, e)))
  ]

  first_match_no_baseline :
      (body : Text) (rules : List EscalationRule) → first_match to_lowercase body rules ≢ baseline
  unfolding first_match
  first_match_no_baseline body [] h = ground arith
  first_match_no_baseline body (rule ∷ rules) h = ground (arith, first_match_no_baseline body rules)

  -- A message goes to a human without any rule exactly when, in lower case, it contains one of
  -- the phrases that ask for one.
  pub evaluate-baseline_iff :
      (body : Text) (rules : List EscalationRule)
      → (evaluate to_lowercase body rules ≡ baseline) ↔ Mentions body human_request_phrases
  unfolding evaluate
  evaluate-baseline_iff body rules = elim (Bool-cases (matches_human_request to_lowercase body)) [
    | inl asked ↦ (λ h. any_sound body human_request_phrases asked, λ m. rw asked refl)
    | inr other ↦ (
      λ h. absurd (first_match_no_baseline body rules (rw (other, evaluate) at h)),
      λ m. absurd (true-not-false (sym (any_complete body human_request_phrases m) ∙ other)),
    )
  ]

  abbrev pub is_topic : EscalationRule → Bool
  is_topic rule = elim rule.trigger [ human_request ↦ false | topic_keywords ↦ true ]

  -- A rule that is dropped when it is no topic, and then does not match.
  by_topic :
      (body : Text) (topic matches : Bool) (m : RuleMatch) (rest : List EscalationRule)
      (rule : EscalationRule) {all : RuleMatch}
      → all ≡ first_match to_lowercase body rest
      → (topic ≡ false → matches ≡ false)
      → matches ≡ rule_matches to_lowercase body rule
      → m ≡ of_tenant rule.id rule.name rule.required_skill_ids
      → (if matches then m else all)
        ≡ first_match to_lowercase body (if topic then rule ∷ rest else rest)
  unfolding first_match
  by_topic body true matches m rest rule same off eq eq' = rw (← eq) (rw (← eq') (rw same refl))
  by_topic body false matches m rest rule same off eq eq' = rw (off refl) same

  other_trigger :
      (body : Text) (rule : EscalationRule)
      → is_topic rule ≡ false
      → rule_matches to_lowercase body rule ≡ matches_human_request to_lowercase body
  other_trigger body rule h = ground arith

  topics_first :
      (body : Text) (rules : List EscalationRule)
      → matches_human_request to_lowercase body ≡ false
      → first_match to_lowercase body rules ≡ first_match to_lowercase body (retain is_topic rules)
  unfolding first_match
  topics_first body [] h = refl
  topics_first body (rule ∷ rules) h =
      let rest = topics_first body rules h in
      by_topic body (is_topic rule) (rule_matches to_lowercase body rule) _ (retain is_topic rules)
        rule rest (λ off. other_trigger body rule off ∙ h) refl refl

  -- A tenant's rule with the trigger `human_request` is never the one that matches: the outcome
  -- is that of the rules with topics alone.
  pub evaluate-topics :
      (body : Text) (rules : List EscalationRule)
      → evaluate to_lowercase body rules ≡ evaluate to_lowercase body (retain is_topic rules)
  unfolding evaluate
  evaluate-topics body rules = elim (Bool-cases (matches_human_request to_lowercase body)) [
    | inl asked ↦ rw asked refl
    | inr other ↦ rw other (topics_first body rules other)
  ]
