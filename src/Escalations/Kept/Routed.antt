-- ===== src/Escalations/Kept/Routed.antt =====
-- The transactions that assign an escalation keep an invariant.
use customer_service_chat_sy.Base.{
  ℕ, refl, Bool, not, ◌&&◌, List, Option, none, some, Text, text_eq, any, length, leb,
}
use customer_service_chat_sy.Escalations.Rows.{EscalationRow, Db, Call, has_id, is_active_for}
use customer_service_chat_sy.Escalations.Transaction.Preserves.{
  Preserves-map_err, Preserves-attempt,
}
use customer_service_chat_sy.Escalations.Transaction.Ensures.{
  Outcome, success, failure, if_Outcome, Ensures, Ensures-Preserves, Ensures-bind, Ensures-then,
  Ensures-before, Ensures-map_err, Ensures-weak,
}
use customer_service_chat_sy.Escalations.Statements.{
  references_member, is_conversation, update_checked, update_assigned, set_assigned,
}
use customer_service_chat_sy.Escalations.Statements.Untouched.{
  OnRows, PreservesRows, record-Preserves, read-Preserves, rows_rules,
}
use customer_service_chat_sy.Escalations.Consistent.{Assigns}
use customer_service_chat_sy.Escalations.Kept.{Invariant}
use customer_service_chat_sy.Escalations.Candidates.{Candidate}
use customer_service_chat_sy.Escalations.Routing.{
  RouteError, insert_checked, insert_escalation, new_row, route_to, route_candidate,
  route_new_escalation,
}

pub set_assigned-Assigns :
    (now : ℕ) (reason : Text) (membership_id : ℕ) (ids : List ℕ) (names : List Text)
    → Assigns (set_assigned now reason membership_id ids names)
set_assigned-Assigns now reason m ids names = record {
  same_id = λ e. refl;
  same_tenant = λ e. refl;
  same_conversation = λ e. refl;
  is_checked = λ e. refl;
}

module _ (Q : List EscalationRow → Type 0) (Chosen : ℕ → List EscalationRow → Type 0)
    (inv : Invariant Q Chosen) where
  pub chosen-Ensures :
      (id membership_id : ℕ) (f : EscalationRow → EscalationRow)
      → Assigns f
      → Ensures (OnRows (Chosen id)) (λ _. OnRows Q) (update_checked (has_id id) membership_id f)
  unfolding update_checked
  chosen-Ensures id m f a = record {
    from = λ db o.
        if_Outcome _ (references_member (has_id id) m db)
          (λ _. success (record { rows = inv.assign id f db.escalations a o.rows })) (λ _. failure);
  }

  pub update_assigned-Ensures :
      (fails : Call → Bool) (id membership_id : ℕ) (f : EscalationRow → EscalationRow)
      → Assigns f
      → Ensures
          (OnRows (Chosen id))
          (λ _. OnRows Q)
          (update_assigned fails (has_id id) membership_id f)
  unfolding update_assigned
  update_assigned-Ensures fails id m f a =
      Ensures-then _ _ (Preserves-attempt fails _) (λ _. chosen-Ensures id m f a)

  module _ (fails : Call → Bool) (now tenant_id escalation_id conversation_id : ℕ) (reason : Text)
      (required_skill_ids : List ℕ) (required_skill_names : List Text) (actor_user_id : ℕ) where
    inserted :
        (db : Db)
        → OnRows Q db
        → Outcome {E = RouteError}
            (λ _. OnRows (Chosen escalation_id))
            (insert_checked
              (new_row now tenant_id escalation_id conversation_id reason required_skill_ids
                required_skill_names)
              db)
    unfolding insert_checked
    inserted db c =
        let is_row = has_id escalation_id in
        if_Outcome _ (not (leb 1 (length reason) && leb (length reason) 2000)) (λ _. failure)
          λ _.
            if_Outcome _ (any is_row db.escalations) (λ _. failure)
              λ fresh.
                if_Outcome _ (any (is_active_for tenant_id conversation_id) db.escalations)
                  (λ _. failure)
                  λ free.
                    if_Outcome _
                      (not (any (is_conversation tenant_id conversation_id) db.conversations))
                      (λ _. failure)
                      λ _.
                        success (record {
                          rows = inv.insert _ db.escalations fresh free refl refl c.rows;
                        })

    route_to-Ensures :
        (c : Candidate)
        → Ensures
            (OnRows (Chosen escalation_id))
            (λ _. OnRows Q)
            (route_to fails now tenant_id escalation_id conversation_id reason required_skill_ids
              required_skill_names actor_user_id c)
    route_to-Ensures c = Ensures-then _ _ (search rows_rules depth 20) λ names.
        Ensures-before _ _
          (update_assigned-Ensures fails escalation_id c.membership_id _
            (set_assigned-Assigns now _ c.membership_id c.matched_ids names))
          λ _. search rows_rules depth 20

    insert_escalation-Ensures :
        Ensures
          (OnRows Q)
          (λ _. OnRows (Chosen escalation_id))
          (insert_escalation fails now (
            new_row now tenant_id escalation_id conversation_id reason required_skill_ids
              required_skill_names))
    unfolding insert_escalation
    insert_escalation-Ensures =
        Ensures-then _ _ (Preserves-map_err _ _ (Preserves-attempt fails _))
          (λ _. record { from = inserted })

    route_candidate-Ensures :
        (c : Option Candidate)
        → Ensures
            (OnRows (Chosen escalation_id))
            (λ _. OnRows Q)
            (route_candidate fails now tenant_id escalation_id conversation_id reason
              required_skill_ids required_skill_names actor_user_id c)
    route_candidate-Ensures (some c) = route_to-Ensures c
    route_candidate-Ensures none =
        Ensures-weak (search rows_rules depth 20)
          (λ db o. record { rows = inv.weaken escalation_id db.escalations o.rows })

    pub route_new-Preserves :
        (present_ids : List ℕ)
        → PreservesRows Q (
            route_new_escalation fails now tenant_id escalation_id conversation_id reason
              required_skill_ids required_skill_names actor_user_id present_ids)
    unfolding route_new_escalation
    route_new-Preserves present_ids = Ensures-Preserves (
        Ensures-then _ _ (Preserves-map_err _ _ (Preserves-attempt fails _)) λ _.
          Ensures-bind _ _ insert_escalation-Ensures λ _.
            Ensures-then _ _ (Preserves-map_err _ _ (record-Preserves _ fails _ _)) λ _.
              Ensures-then _ _ (Preserves-map_err _ _ (read-Preserves _ fails _ _))
                λ c. Ensures-map_err _ _ (route_candidate-Ensures c))
