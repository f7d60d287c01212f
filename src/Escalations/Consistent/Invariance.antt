-- ===== src/Escalations/Consistent/Invariance.antt =====
-- The consistency of the table is an invariant of the routing, the claims and the drainings.
use customer_service_chat_sy.Base.{ℕ, ◌≡◌, true, List, all, arith}
use customer_service_chat_sy.Escalations.Rows.{EscalationRow, has_id, is_queued}
use customer_service_chat_sy.Escalations.Consistent.{
  IsConsistent, queued_where, assigned-IsConsistent, inserted-IsConsistent, all-append, all-imp,
  all_unique, queued_always,
}
use customer_service_chat_sy.Escalations.Kept.{Invariant}

-- The table is consistent, and the rows with the id are queued.
abbrev pub Ready : ℕ → List EscalationRow → Type 0
Ready id rows = IsConsistent rows × (all (queued_where (has_id id)) rows ≡ true)

queued_row : (row : EscalationRow) → is_queued row ≡ true → queued_where (has_id row.id) row ≡ true
queued_row row q = ground arith

pub consistent : Invariant IsConsistent Ready
consistent = record {
  weaken = λ id rows h. h.0;
  choose = λ id rows h c. (c, all_unique (has_id id) is_queued rows h (c.ids id));
  insert = λ row rows fresh free check q c. (
    inserted-IsConsistent row rows fresh free check c,
    all-append (queued_where (has_id row.id)) rows row
        (all-imp (has_id row.id) is_queued rows fresh) (queued_row row q),
  );
  assign = λ id f rows a h. assigned-IsConsistent (has_id id) f rows a h.1 h.0;
  claim = λ p f rows a h c. assigned-IsConsistent p f rows a (queued_always p rows h) c;
}
