-- ===== src/Escalations/Steps/Placed/Outcome.antt =====
-- The outcomes of the routing of a new escalation when the database does not fail: `route_new_escalation_in_tx`
-- of backend/crates/modules/escalations/src/routing.rs.
use customer_service_chat_sy.Base.{
  ℕ, zero, suc, ◌≡◌, refl, sym, Bool, true, false, ◌&&◌, List, [], ◌∷◌, ◌++◌, Option, none, some,
  Result, ok, Text, eqb, leb, any, find, get_elem?, length, find_sound, arith,
}
use customer_service_chat_sy.Tenancy.Roster.{Membership}
use customer_service_chat_sy.Escalations.Rows.{
  EscalationRow, Conversation, Db, has_id, is_active_for, is_active_member, AuditEvent,
  escalation_created,
}
use customer_service_chat_sy.Escalations.Transaction.{◌>>=◌, attempt, map_err, mapped}
use customer_service_chat_sy.Escalations.Candidates.{
  Candidate, is_eligible, candidate_of, select_candidate,
}
use customer_service_chat_sy.Escalations.Candidates.Ranked.{IsBest, best, select_candidate-IsBest}
use customer_service_chat_sy.Escalations.Consistent.{all-append, all-imp}
use customer_service_chat_sy.Escalations.Routing.{
  RouteOutcome, assigned, queued, RouteError, internal, insert_escalation, insert_checked, route_to,
  leave_queued, route_candidate, route_new_escalation,
}
use customer_service_chat_sy.Escalations.Statements.{
  is_conversation, references_member, set_escalated, resolve_actor_membership_id,
  notify_escalation_queued,
}
use customer_service_chat_sy.Escalations.Steps.Held.{AssignedTo}
use customer_service_chat_sy.Escalations.Steps.Races.{assigned-AssignedTo}
use customer_service_chat_sy.Escalations.Steps.Placed.{
  never, is_kept, Given, new, Routes, places, route_to-Routes,
}

any-get_elem? :
    {A : Type 0} (p : A → Bool) (xs : List A) (i : ℕ) {x : A}
    → get_elem? xs i ≡ some x
    → p x ≡ true
    → any p xs ≡ true
any-get_elem? p [] i e h = ground arith
any-get_elem? p (y ∷ xs) zero {x} e h = ground arith
any-get_elem? p (y ∷ xs) (suc i) {x} e h = ground (arith, any-get_elem? p xs i {x = x} e h)

any_last :
    {A : Type 0} (p : A → Bool) (xs : List A) (x : A) → p x ≡ true → any p (xs ++ x ∷ []) ≡ true
any_last p [] x h = ground arith
any_last p (y ∷ xs) x h = ground (arith, any_last p xs x)

module _ (db : Db) (t : ℕ) (ids present_ids : List ℕ) where
  -- The member chosen is active in the tenant.
  pub record IsMember (k : Candidate) : Type 0 where
    pub active : any (is_active_member t k.membership_id) db.memberships ≡ true
    pub member :
        any (λ (m : Membership). eqb m.tenant_id t && eqb m.id k.membership_id) db.memberships
        ≡ true

  eligible_active :
      (x : Membership)
      → is_eligible db t present_ids x ≡ true
      → (is_active_member t x.id x ≡ true) × ((eqb x.tenant_id t && eqb x.id x.id) ≡ true)
  unfolding is_eligible
  eligible_active x h = ground arith

  best-IsMember :
      {k : Candidate}
      → IsBest (is_eligible db t present_ids) (candidate_of db t ids) db.memberships (some k)
      → IsMember k
  unfolding candidate_of
  best-IsMember (best i x e h d u) =
      let (active, member) = eligible_active x h in
      rw d (record {
        active = any-get_elem? (is_active_member t x.id) db.memberships i e active;
        member =
            any-get_elem? (λ (m : Membership). eqb m.tenant_id t && eqb m.id x.id) db.memberships i
              e member;
      })

  chosen-IsMember : (k : Candidate) → select_candidate db t ids present_ids ≡ some k → IsMember k
  chosen-IsMember k h = best-IsMember (rw h at (select_candidate-IsBest db t ids present_ids))

  select_candidate-same :
      (rows : List EscalationRow) (events : List AuditEvent)
      → select_candidate (record db { escalations = rows; audit_events = events }) t ids present_ids
        ≡ select_candidate db t ids present_ids
  unfolding select_candidate is_eligible candidate_of
  select_candidate-same rows events = refl

any-find :
    {A : Type 0} (p q : A → Bool) (xs : List A) {x : A}
    → find p xs ≡ some x
    → q x ≡ true
    → any q xs ≡ true
any-find p q [] h g = ground arith
any-find p q (y ∷ xs) {x} h g = ground (arith, any-find p q xs {x = x})

module _ (now t id c : ℕ) (reason : Text) (ids : List ℕ) (names : List Text) (actor : ℕ)
    (present_ids : List ℕ) where
  abbrev row : EscalationRow
  row = new now t id c reason ids names actor

  abbrev created : Db → Db
  created db = record db {
    escalations = db.escalations ++ row ∷ [];
    audit_events = db.audit_events ++ escalation_created actor t id c reason ∷ [];
  }

  references_new :
      (db : Db) (k : Candidate)
      → IsMember db t ids present_ids k
      → any (has_id id) db.escalations ≡ false
      → references_member (has_id id) k.membership_id (created db) ≡ true
  references_new db k m fresh =
      let member = m.member in
      all-append _ db.escalations row (all-imp (has_id id) _ db.escalations fresh) (ground arith)

  -- What the routing of an escalation ends with: it is the chosen member's, and so is its
  -- conversation, or it is queued, as there is nobody to choose.
  pub data Placed (db : Db) : Result (RouteOutcome × Db) RouteError → Type 0 where
    placed :
        {k : Candidate} {e : _} {matched : List Text} {db' : Db}
        → select_candidate db t ids present_ids ≡ some k
        → AssignedTo t id k.membership_id db'.escalations
        → Given t c k.membership_id db'.conversations
        → Placed db (ok (assigned e k.membership_id matched, db'))
    waits :
        {e : _} {db' : Db}
        → select_candidate db t ids present_ids ≡ none
        → db'.escalations ≡ db.escalations ++ row ∷ []
        → Placed db (ok (queued e, db'))

  Routes-Placed :
      (db : Db) (k : Candidate) (r : Result (RouteOutcome × Db) _)
      → select_candidate db t ids present_ids ≡ some k
      → Routes now t id c reason ids names actor k (db.escalations ++ row ∷ []) r
      → Placed db (mapped internal r)
  Routes-Placed db k _ s (places {e} {matched} {db = db'} h g) =
      placed s
        (rw h (
          assigned-AssignedTo t id k.membership_id now _ k.matched_ids matched
            (db.escalations ++ row ∷ []) (any_last _ db.escalations row (ground arith))))
        g

  queued-Placed :
      (db : Db)
      → select_candidate db t ids present_ids ≡ none
      → Placed db
          (mapped internal (leave_queued never now t id c reason ids names actor (created db)))
  unfolding ◌>>=◌ attempt set_escalated resolve_actor_membership_id notify_escalation_queued
  queued-Placed db s = waits s refl

  chosen-Placed :
      (db : Db) (k : Candidate) {v : Conversation}
      → any (has_id id) db.escalations ≡ false
      → find (is_kept t c) db.conversations ≡ some v
      → select_candidate db t ids present_ids ≡ some k
      → Placed db
          (mapped internal (route_to never now t id c reason ids names actor k (created db)))
  chosen-Placed db k {v} fresh kept s =
      let m = chosen-IsMember db t ids present_ids k s in
      Routes-Placed db k _ s (
        route_to-Routes now t id c reason ids names actor k v (created db)
          (references_new db k m fresh) kept m.active)

  candidate-Placed :
      (db : Db) {v : Conversation}
      → any (has_id id) db.escalations ≡ false
      → find (is_kept t c) db.conversations ≡ some v
      → (o : Option Candidate) → select_candidate db t ids present_ids ≡ o
      → Placed db
          (mapped internal (route_candidate never now t id c reason ids names actor o (created db)))
  candidate-Placed db fresh kept none s = queued-Placed db s
  candidate-Placed db fresh kept (some k) s = chosen-Placed db k fresh kept s

  -- A new escalation of a conversation that is not deleted and has no active one, with a reason of 1
  -- to 2,000 characters and a fresh id: when the database does not fail, the routing succeeds. If
  -- there is a candidate, the escalation and the conversation are the chosen member's, else the
  -- escalation is queued.
  pub route_new-Placed :
      (db : Db) {v : Conversation}
      → (leb 1 (length reason) && leb (length reason) 2000) ≡ true
      → any (has_id id) db.escalations ≡ false
      → any (is_active_for t c) db.escalations ≡ false
      → find (is_kept t c) db.conversations ≡ some v
      → Placed db (route_new_escalation never now t id c reason ids names actor present_ids db)
  unfolding route_new_escalation insert_escalation insert_checked ◌>>=◌ attempt map_err
  route_new-Placed db {v} bounds fresh first kept =
      let sound = find_sound (is_kept t c) db.conversations {x = v} kept in
      let there =
        any-find (is_kept t c) (is_conversation t c) db.conversations {x = v} kept (ground arith) in
      rw bounds (
        rw fresh (
          rw first (
            rw there (
              candidate-Placed db fresh kept _
                (sym (select_candidate-same db t ids present_ids _ _))))))
