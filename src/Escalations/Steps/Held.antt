-- ===== src/Escalations/Steps/Held.antt =====
-- An escalation that is assigned stays with its member.
use customer_service_chat_sy.Base.{
  ℕ, ◌≡◌, refl, Bool, true, false, not, ◌&&◌, ◌||◌, List, [], ◌∷◌, ◌++◌, codes, eqb, text_eq,
  text_beq→≡, any, all, update_where, arith,
}
use customer_service_chat_sy.Escalations.Rows.{
  EscalationRow, Db, has_id, is_queued, is_assigned, is_assignee,
}
use customer_service_chat_sy.Escalations.Statements.Untouched.{OnRows}
use customer_service_chat_sy.Escalations.Consistent.{Assigns, all-append}
use customer_service_chat_sy.Escalations.Kept.{Invariant}
use customer_service_chat_sy.Escalations.Steps.Consistency.{RoutingStep-Invariant}
use customer_service_chat_sy.Escalations.Steps.{RoutingSteps, here, after}

abbrev pub is_row : (tenant_id escalation_id : ℕ) → EscalationRow → Bool
is_row tenant_id escalation_id e = eqb e.tenant_id tenant_id && has_id escalation_id e

abbrev pub is_held : (escalation_id membership_id : ℕ) → EscalationRow → Bool
is_held id m e = not (has_id id e) || (is_assigned e && is_assignee e.assigned_membership_id m)

-- The tenant's escalation is there, and assigned to the member.
pub record AssignedTo (tenant_id escalation_id membership_id : ℕ) (rows : List EscalationRow)
    : Type 0 where
  pub there : any (is_row tenant_id escalation_id) rows ≡ true
  pub held : all (is_held escalation_id membership_id) rows ≡ true

pub queued_only : (e : EscalationRow) → is_queued e ≡ true → is_assigned e ≡ false
queued_only e h = rw (text_beq→≡ e.status (codes "queued") h) refl

module _ (t id m : ℕ) where
  any-append :
      (p : EscalationRow → Bool) (rows : List EscalationRow) (e : EscalationRow)
      → any p rows ≡ true
      → any p (rows ++ e ∷ []) ≡ true
  any-append p [] e h = ground arith
  any-append p (x ∷ rows) e h = ground (arith, any-append p rows e)

  updated :
      (p : EscalationRow → Bool) (f : EscalationRow → EscalationRow) (rows : List EscalationRow)
      → ((e : EscalationRow) → (f e).id ≡ e.id)
      → ((e : EscalationRow) → p e ≡ true → has_id id e ≡ true → is_assigned e ≡ false)
      → all (is_held id m) rows ≡ true
      → all (is_held id m) (update_where p f rows) ≡ true
  updated p f [] same other h = refl
  updated p f (e ∷ rows) same other h = ground (arith, same e, other e, updated p f rows same other)

  still_there :
      (p : EscalationRow → Bool) (f : EscalationRow → EscalationRow) (rows : List EscalationRow)
      → Assigns f
      → any (is_row t id) rows ≡ true
      → any (is_row t id) (update_where p f rows) ≡ true
  still_there p f [] a h = h
  still_there p f (e ∷ rows) a h =
      ground (arith, a.same_id e, a.same_tenant e, still_there p f rows a)

  -- The escalation chosen is another.
  abbrev Other : ℕ → List EscalationRow → Type 0
  Other chosen rows = AssignedTo t id m rows × (eqb chosen id ≡ false)

  queued-Other :
      (chosen : ℕ) (rows : List EscalationRow)
      → any (λ e. has_id chosen e && is_queued e) rows ≡ true
      → all (is_held id m) rows ≡ true
      → eqb chosen id ≡ false
  queued-Other chosen [] q h = ground arith
  queued-Other chosen (e ∷ rows) q h = ground (arith, queued_only e, queued-Other chosen rows)

  fresh-Other :
      (chosen : ℕ) (rows : List EscalationRow)
      → any (has_id chosen) rows ≡ false
      → any (is_row t id) rows ≡ true
      → eqb chosen id ≡ false
  fresh-Other chosen [] f h = ground arith
  fresh-Other chosen (e ∷ rows) f h = ground (arith, fresh-Other chosen rows)

  updated-AssignedTo :
      (p : EscalationRow → Bool) (f : EscalationRow → EscalationRow) (rows : List EscalationRow)
      → Assigns f
      → ((e : EscalationRow) → p e ≡ true → has_id id e ≡ true → is_assigned e ≡ false)
      → AssignedTo t id m rows
      → AssignedTo t id m (update_where p f rows)
  updated-AssignedTo p f rows a other h = record {
    there = still_there p f rows a h.there;
    held = updated p f rows a.same_id other h.held;
  }

  is_other :
      (chosen : ℕ) (e : EscalationRow)
      → eqb chosen id ≡ false
      → has_id chosen e ≡ true
      → has_id id e ≡ true
      → is_assigned e ≡ false
  is_other chosen e o h k = ground arith

  inserted-Other :
      (row : EscalationRow) (rows : List EscalationRow)
      → any (has_id row.id) rows ≡ false
      → AssignedTo t id m rows
      → Other row.id (rows ++ row ∷ [])
  inserted-Other row rows fresh h =
      let other = fresh-Other row.id rows fresh h.there in
      (
        record {
          there = any-append (is_row t id) rows row h.there;
          held = all-append (is_held id m) rows row h.held (ground arith);
        },
        other,
      )

  held : Invariant (AssignedTo t id m) Other
  held = record {
    weaken = λ chosen rows h. h.0;
    choose = λ chosen rows q h. (h, queued-Other chosen rows q h.held);
    insert = λ row rows fresh free check q h. inserted-Other row rows fresh h;
    assign = λ chosen f rows a h.
        updated-AssignedTo (has_id chosen) f rows a (λ e k l. is_other chosen e h.1 k l) h.0;
    claim = λ p f rows a q h. updated-AssignedTo p f rows a (λ e k l. queued_only e (q e k)) h;
  }

  held-OnRows :
      {db db' : Db}
      → RoutingSteps db db'
      → OnRows (AssignedTo t id m) db
      → OnRows (AssignedTo t id m) db'
  held-OnRows here h = h
  held-OnRows (after rest s) h =
      RoutingStep-Invariant (AssignedTo t id m) Other held s (held-OnRows rest h)

  -- An escalation that is assigned to a member stays so, whatever routings, claims and drainings run
  -- one after another, each with any faults.
  pub RoutingSteps-AssignedTo :
      {db db' : Db}
      → RoutingSteps db db'
      → AssignedTo t id m db.escalations
      → AssignedTo t id m db'.escalations
  RoutingSteps-AssignedTo steps h = (held-OnRows steps (record { rows = h })).rows
