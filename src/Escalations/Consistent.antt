-- ===== src/Escalations/Consistent.antt =====
-- What is said of the table `escalations` as a whole: ids are unique, a conversation has one active
-- escalation at most, and each row passes `escalations_consistency_check` of
-- backend/migrations/0037_escalations.sql, which the model does not enforce.
pub mod Invariance
pub mod Closed
use customer_service_chat_sy.Base.{
  ℕ, ◌+◌, ◌≤◌, ◌≡◌, refl, Bool, true, false, not, ◌&&◌, ◌||◌, List, [], ◌∷◌, ◌++◌, Option, none,
  some, codes, ◌==◌, text_eq, count, all, any, update_where, count-update_where, count-append,
  arith,
}
use customer_service_chat_sy.Escalations.Rows.{
  EscalationRow, has_id, is_queued, is_assigned, is_active_for,
}

abbrev pub is_some : {A : Type 0} → Option A → Bool
is_some none = false
is_some (some a) = true

abbrev pub passes_check : EscalationRow → Bool
passes_check e =
    (is_assigned e
      && (is_some e.assigned_membership_id && (is_some e.routing_reason && is_some e.assigned_at)))
    || ((is_queued e
          && not (
              is_some e.assigned_membership_id
              || (is_some e.routing_reason || is_some e.assigned_at)))
        || e.status == codes "closed")

pub record IsConsistent (rows : List EscalationRow) : Type 0 where
  pub ids : (id : ℕ) → count (has_id id) rows ≤ 1
  pub one_active :
      (tenant_id conversation_id : ℕ) → count (is_active_for tenant_id conversation_id) rows ≤ 1
  pub checked : all passes_check rows ≡ true

module _ {A : Type 0} where
  count-update_le :
      (q p fits : A → Bool) (f : A → A) (xs : List A)
      → all fits xs ≡ true
      → ((x : A) → fits x ≡ true → p x ≡ true → q (f x) ≡ true → q x ≡ true)
      → count q (update_where p f xs) ≤ count q xs
  count-update_le q p fits f [] h k = omega arith
  count-update_le q p fits f (x ∷ xs) h k = ground (arith, k x, count-update_le q p fits f xs)

  all-update :
      (q p fits : A → Bool) (f : A → A) (xs : List A)
      → all fits xs ≡ true
      → all q xs ≡ true
      → ((x : A) → fits x ≡ true → p x ≡ true → q x ≡ true → q (f x) ≡ true)
      → all q (update_where p f xs) ≡ true
  all-update q p fits f [] h g k = refl
  all-update q p fits f (x ∷ xs) h g k = ground (arith, k x, all-update q p fits f xs)

  pub all-append :
      (q : A → Bool) (xs : List A) (x : A)
      → all q xs ≡ true
      → q x ≡ true
      → all q (xs ++ x ∷ []) ≡ true
  all-append q [] x h g = ground arith
  all-append q (y ∷ xs) x h g = ground (arith, all-append q xs x)

  pub count-none : (p : A → Bool) (xs : List A) → any p xs ≡ false → count p xs ≡ 0
  count-none p [] h = refl
  count-none p (x ∷ xs) h = ground (arith, count-none p xs)

  pub all-imp :
      (p q : A → Bool) (xs : List A) → any p xs ≡ false → all (λ x. not (p x) || q x) xs ≡ true
  all-imp p q [] h = refl
  all-imp p q (x ∷ xs) h = ground (arith, all-imp p q xs)

  pub all-of_count :
      (p q : A → Bool) (xs : List A) → count p xs ≡ 0 → all (λ x. not (p x) || q x) xs ≡ true
  all-of_count p q [] h = refl
  all-of_count p q (x ∷ xs) h = ground (arith, all-of_count p q xs)

  any-of_count : (p q : A → Bool) (xs : List A) → count p xs ≡ 0 → any (λ x. p x && q x) xs ≡ false
  any-of_count p q [] h = refl
  any-of_count p q (x ∷ xs) h = ground (arith, any-of_count p q xs)

  -- If one element has both marks and at most one has the first, all with the first have both.
  pub all_unique :
      (p q : A → Bool) (xs : List A)
      → any (λ x. p x && q x) xs ≡ true
      → count p xs ≤ 1
      → all (λ x. not (p x) || q x) xs ≡ true
  all_unique p q [] h k = refl
  all_unique p q (x ∷ xs) h k =
      ground (arith, all_unique p q xs, all-of_count p q xs, any-of_count p q xs)

-- The rows that an update assigns are queued.
abbrev pub queued_where : (EscalationRow → Bool) → EscalationRow → Bool
queued_where p e = not (p e) || is_queued e

-- An update of queued rows that sets all that an assigned row wants.
pub record Assigns (f : EscalationRow → EscalationRow) : Type 0 where
  pub same_id : (e : EscalationRow) → (f e).id ≡ e.id
  pub same_tenant : (e : EscalationRow) → (f e).tenant_id ≡ e.tenant_id
  pub same_conversation : (e : EscalationRow) → (f e).conversation_id ≡ e.conversation_id
  pub is_checked : (e : EscalationRow) → passes_check (f e) ≡ true

pub assigned-IsConsistent :
    (p : EscalationRow → Bool) (f : EscalationRow → EscalationRow) (rows : List EscalationRow)
    → Assigns f
    → all (queued_where p) rows ≡ true
    → IsConsistent rows
    → IsConsistent (update_where p f rows)
assigned-IsConsistent p f rows a fits c = record {
  ids = λ id. omega (arith, c.ids id, count-update_where (has_id id) p f rows (λ e. ap_id id e));
  one_active = λ t v. omega (
    arith,
    c.one_active t v,
    count-update_le (is_active_for t v) p (queued_where p) f rows fits
        (λ e h k g. active t v e h k g),
  );
  checked =
      all-update passes_check p (queued_where p) f rows fits c.checked (λ e h k g. a.is_checked e);
}
  where
    ap_id : (id : ℕ) (e : EscalationRow) → has_id id (f e) ≡ has_id id e
    ap_id id e = rw (a.same_id e)

    active :
        (t v : ℕ) (e : EscalationRow)
        → queued_where p e ≡ true
        → p e ≡ true
        → is_active_for t v (f e) ≡ true
        → is_active_for t v e ≡ true
    active t v e h k g = ground (arith, a.same_tenant e, a.same_conversation e)

pub closed-IsConsistent :
    (p : EscalationRow → Bool) (f : EscalationRow → EscalationRow) (rows : List EscalationRow)
    → ((e : EscalationRow) → (f e).id ≡ e.id)
    → ((e : EscalationRow) → (f e).status ≡ codes "closed")
    → IsConsistent rows
    → IsConsistent (update_where p f rows)
closed-IsConsistent p f rows same_id status c = record {
  ids =
      λ id. omega (arith, c.ids id, count-update_where (has_id id) p f rows (λ e. rw (same_id e)));
  one_active = λ t v. omega (
    arith,
    c.one_active t v,
    count-update_le (is_active_for t v) p (λ e. true) f rows (always rows) (inactive t v),
  );
  checked =
      all-update passes_check p (λ e. true) f rows (always rows) c.checked (λ e h k g. closed e);
}
  where
    always : (rows : List EscalationRow) → all (λ e. true) rows ≡ true
    always [] = refl
    always (e ∷ rows) = always rows

    inactive :
        (t v : ℕ) (e : EscalationRow)
        → ◌≡◌ {A = Bool} true true
        → p e ≡ true
        → is_active_for t v (f e) ≡ true
        → is_active_for t v e ≡ true
    inactive t v e h k g = ground (arith, rw (status e) at g)

    closed : (e : EscalationRow) → passes_check (f e) ≡ true
    closed e = rw (status e) refl

-- An update that leaves the status and all that the check of an assigned row wants.
pub kept-IsConsistent :
    (p : EscalationRow → Bool) (f : EscalationRow → EscalationRow) (rows : List EscalationRow)
    → ((e : EscalationRow) → (f e).id ≡ e.id)
    → ((t v : ℕ) (e : EscalationRow) → is_active_for t v (f e) ≡ is_active_for t v e)
    → ((e : EscalationRow) → p e ≡ true → passes_check e ≡ true → passes_check (f e) ≡ true)
    → IsConsistent rows
    → IsConsistent (update_where p f rows)
kept-IsConsistent p f rows same_id same check c = record {
  ids =
      λ id. omega (arith, c.ids id, count-update_where (has_id id) p f rows (λ e. rw (same_id e)));
  one_active = λ t v.
      omega (arith, c.one_active t v, count-update_where (is_active_for t v) p f rows (same t v));
  checked =
      all-update passes_check p passes_check f rows c.checked c.checked (λ e h k g. check e k g);
}

pub inserted-IsConsistent :
    (row : EscalationRow) (rows : List EscalationRow)
    → any (has_id row.id) rows ≡ false
    → any (is_active_for row.tenant_id row.conversation_id) rows ≡ false
    → passes_check row ≡ true
    → IsConsistent rows
    → IsConsistent (rows ++ row ∷ [])
inserted-IsConsistent row rows fresh free check c = record {
  ids = λ id. grind (arith, c.ids id, count-append, count-none);
  one_active = λ t v. grind (arith, c.one_active t v, count-append, count-none);
  checked = all-append passes_check rows row c.checked check;
}

pub queued_always :
    (p : EscalationRow → Bool) (rows : List EscalationRow)
    → ((e : EscalationRow) → p e ≡ true → is_queued e ≡ true)
    → all (queued_where p) rows ≡ true
queued_always p [] h = refl
queued_always p (e ∷ rows) h = ground (arith, h e, queued_always p rows h)
