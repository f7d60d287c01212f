-- ===== src/Escalations/Drain/Oldest.antt =====
-- Which escalation a draining takes.
use customer_service_chat_sy.Base.{
  ℕ, zero, suc, ◌≡◌, refl, Bool, true, false, not, Bool-cases, ◌&&◌, inl, inr, List, [], ◌∷◌,
  Option, none, some, ok, ltb, if◌then◌else◌, any, all, retain, get_elem?, arith,
}
use customer_service_chat_sy.Escalations.Rows.{
  EscalationRow, Db, Call, selects_matching, selects_oldest,
}
use customer_service_chat_sy.Escalations.Transaction.{◌>>=◌, attempt}
use customer_service_chat_sy.Escalations.Drain.{
  oldest, older_of, is_queued_in, has_required_skill, matching_entry, oldest_entry, select_entry,
}

module _ (p : EscalationRow → Bool) where
  -- No row that passes the test is older.
  abbrev pub unpreceded : List EscalationRow → EscalationRow → Bool
  unpreceded rows e =
      all (λ (x : EscalationRow). not (p x && ltb x.escalated_at e.escalated_at)) rows

  pub data IsOldest (rows : List EscalationRow) : Option EscalationRow → Type 0 where
    nothing : any p rows ≡ false → IsOldest rows none
    first :
        (i : ℕ) {e : EscalationRow}
        → get_elem? rows i ≡ some e
        → p e ≡ true
        → unpreceded rows e ≡ true
        → IsOldest rows (some e)

  unpreceded_older :
      (rows : List EscalationRow) (b a : EscalationRow)
      → unpreceded rows b ≡ true
      → ltb b.escalated_at a.escalated_at ≡ false
      → unpreceded rows a ≡ true
  unpreceded_older [] b a h k = refl
  unpreceded_older (x ∷ rows) b a h k = ground (arith, unpreceded_older rows b a)

  unpreceded_none :
      (rows : List EscalationRow) (a : EscalationRow)
      → any p rows ≡ false
      → unpreceded rows a ≡ true
  unpreceded_none [] a h = refl
  unpreceded_none (x ∷ rows) a h = ground (arith, unpreceded_none rows a)

  skip :
      (x : EscalationRow) (rows : List EscalationRow) (r : Option EscalationRow)
      → p x ≡ false
      → IsOldest rows r
      → IsOldest (x ∷ rows) r
  skip x rows none h (nothing u) = nothing (ground arith)
  skip x rows (some e) h (first i g q u) = first (suc i) g q (ground arith)

  older :
      (x : EscalationRow) (rows : List EscalationRow) (e : EscalationRow) (b : Bool)
      → ltb e.escalated_at x.escalated_at ≡ b
      → p x ≡ true
      → IsOldest rows (some e)
      → IsOldest (x ∷ rows) (some (if b then e else x))
  older x rows e true k h (first i g q u) = first (suc i) g q (ground arith)
  older x rows e false k h (first i g q u) =
      first zero refl h (ground (arith, unpreceded_older rows e x))

  join :
      (x : EscalationRow) (rows : List EscalationRow) (r : Option EscalationRow)
      → p x ≡ true
      → IsOldest rows r
      → IsOldest (x ∷ rows) (some (older_of x r))
  join x rows none h (nothing u) = first zero refl h (ground (arith, unpreceded_none rows x))
  join x rows (some e) h o = older x rows e (ltb e.escalated_at x.escalated_at) refl h o

  oldest-IsOldest : (rows : List EscalationRow) → IsOldest rows (oldest (retain p rows))
  unfolding oldest
  oldest-IsOldest [] = nothing refl
  oldest-IsOldest (x ∷ rows) = elim (Bool-cases (p x)) [
    | inl fits ↦ rw fits (join x rows (oldest (retain p rows)) fits (oldest-IsOldest rows))
    | inr other ↦ rw other (skip x rows (oldest (retain p rows)) other (oldest-IsOldest rows))
  ]

oldest_entry-IsOldest :
    (db : Db) (t : ℕ) → IsOldest (is_queued_in t) db.escalations (oldest_entry t db)
unfolding oldest_entry
oldest_entry-IsOldest db t = oldest-IsOldest (is_queued_in t) db.escalations

module _ (db : Db) (t m : ℕ) where
  abbrev pub is_match : EscalationRow → Bool
  is_match e = is_queued_in t e && has_required_skill m db.agent_skills e

  -- The oldest that asks for one of the member's skills, else the oldest of all.
  pub data IsNext : Option EscalationRow → Type 0 where
    matching : {e : EscalationRow} → IsOldest is_match db.escalations (some e) → IsNext (some e)
    fallback :
        {r : Option EscalationRow}
        → any is_match db.escalations ≡ false
        → IsOldest (is_queued_in t) db.escalations r
        → IsNext r

  abbrev pub Selects : (fails : Call → Bool) (now : ℕ) → Type 0
  Selects fails now =
      (entry : Option EscalationRow) × (select_entry fails now t m db ≡ ok (entry, db))
      × IsNext entry

  found :
      (fails : Call → Bool) (now : ℕ) (r : Option EscalationRow)
      → matching_entry t m db ≡ r
      → IsOldest is_match db.escalations r
      → fails selects_matching ≡ false
      → fails selects_oldest ≡ false
      → Selects fails now
  unfolding select_entry ◌>>=◌ attempt
  found fails now none e (nothing u) fm fo =
      (oldest_entry t db, rw fm (rw e (rw fo refl)), fallback u (oldest_entry-IsOldest db t))
  found fails now (some e) eq o fm fo = (some e, rw fm (rw eq refl), matching o)

  matching_entry-IsOldest : IsOldest is_match db.escalations (matching_entry t m db)
  unfolding matching_entry
  matching_entry-IsOldest = oldest-IsOldest is_match db.escalations

-- A draining whose two queries do not fail selects the oldest queued escalation of the tenant that
-- requires one of the member's skills; if there is none, the oldest queued of the tenant; and nothing
-- only if none is queued. It changes nothing.
pub select_entry-Selects :
    (fails : Call → Bool) (now : ℕ) (db : Db) (tenant_id membership_id : ℕ)
    → fails selects_matching ≡ false
    → fails selects_oldest ≡ false
    → Selects db tenant_id membership_id fails now
select_entry-Selects fails now db t m fm fo =
    found db t m fails now (matching_entry t m db) refl (matching_entry-IsOldest db t m) fm fo
