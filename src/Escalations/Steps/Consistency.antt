-- ===== src/Escalations/Steps/Consistency.antt =====
-- Whatever transactions run, the table `escalations` stays consistent.
use customer_service_chat_sy.Base.{ℕ, List}
use customer_service_chat_sy.Escalations.Rows.{EscalationRow, Db}
use customer_service_chat_sy.Escalations.Transaction.Preserves.{transact-Preserves}
use customer_service_chat_sy.Escalations.Statements.Untouched.{OnRows}
use customer_service_chat_sy.Escalations.Consistent.{IsConsistent}
use customer_service_chat_sy.Escalations.Consistent.Invariance.{Ready, consistent}
use customer_service_chat_sy.Escalations.Consistent.Closed.{process_event-IsConsistent}
use customer_service_chat_sy.Escalations.Kept.{Invariant}
use customer_service_chat_sy.Escalations.Kept.Routed.{route_new-Preserves}
use customer_service_chat_sy.Escalations.Kept.Claimed.{claim-Preserves}
use customer_service_chat_sy.Escalations.Kept.Drained.{drain_one-Preserves, drain_any-Preserves}
use customer_service_chat_sy.Escalations.Steps.{
  RoutingStep, routes, claims, drains_one, drains_any, Step, routing, processes, Steps, start, next,
}

module _ (Q : List EscalationRow → Type 0) (Chosen : ℕ → List EscalationRow → Type 0)
    (inv : Invariant Q Chosen) where
  pub RoutingStep-Invariant : {db db' : Db} → RoutingStep db db' → OnRows Q db → OnRows Q db'
  RoutingStep-Invariant (routes fails now t e c reason ids names a present) h =
      transact-Preserves
        (route_new-Preserves Q Chosen inv fails now t e c reason ids names a present) h
  RoutingStep-Invariant (claims fails now t e m a) h =
      transact-Preserves (claim-Preserves Q Chosen inv fails now t e m a) h
  RoutingStep-Invariant (drains_one fails now t m a) h =
      transact-Preserves (drain_one-Preserves Q Chosen inv fails now t m a) h
  RoutingStep-Invariant (drains_any fails now t a present) h =
      transact-Preserves (drain_any-Preserves Q Chosen inv fails now t a present) h

Step-IsConsistent : {db db' : Db} → Step db db' → OnRows IsConsistent db → OnRows IsConsistent db'
Step-IsConsistent (routing s) h = RoutingStep-Invariant IsConsistent Ready consistent s h
Step-IsConsistent (processes fails now t c present event) h =
    transact-Preserves (process_event-IsConsistent fails now t c present event) h

Steps-OnRows : {db db' : Db} → Steps db db' → OnRows IsConsistent db → OnRows IsConsistent db'
Steps-OnRows start h = h
Steps-OnRows (next rest s) h = Step-IsConsistent s (Steps-OnRows rest h)

-- From a table in which ids are unique, no conversation has two active escalations and each row
-- passes the consistency check, any sequence of routings, claims, drainings and events of the outbox,
-- each with any faults, leads to such a table.
pub Steps-IsConsistent :
    {db db' : Db} → Steps db db' → IsConsistent db.escalations → IsConsistent db'.escalations
Steps-IsConsistent steps c = (Steps-OnRows steps (record { rows = c })).rows
