-- ===== src/Tools/Policy/Sorted.antt =====
-- The order in which the tools are offered.
use customer_service_chat_sy.Base.{
  true, false, ◌≡◌, refl, inl, inr, List, [], ◌∷◌, ◌++◌, arith, Text, text_eq, text_beq_iff, ◌==◌,
  Bool-cases, ==_sym,
}
use customer_service_chat_sy.Tools.Model.{source_text}
use customer_service_chat_sy.Tools.Validation.{ResolvedTool}
use customer_service_chat_sy.Tools.Policy.{
  ToolPolicy, TenantTool, catalog, resolve_builtins, resolve_tenant_tools, text_leb, tool_leb,
  insert_sorted, sort, resolve_available,
}

text_leb_total : (s t : Text) → text_leb s t ≡ false → text_leb t s ≡ true
text_leb_total [] t h = absurd (ground arith)
text_leb_total (a ∷ s) [] h = refl
text_leb_total (a ∷ s) (b ∷ t) h = ground (arith, text_leb_total s t)

tool_leb_total : (a b : ResolvedTool) → tool_leb a b ≡ false → tool_leb b a ≡ true
tool_leb_total a b h = elim (Bool-cases (source_text a.source == source_text b.source)) [
  | inl same ↦ ground (
    arith,
    same,
    text_beq_iff (source_text a.source) (source_text b.source),
    text_leb_total a.spec.name b.spec.name,
  )
  | inr other ↦
      rw (==_sym (source_text a.source) (source_text b.source) other)
        (text_leb_total (source_text a.source) (source_text b.source) (ground (arith, other, h)))
]

abbrev pub BeforeHead : ResolvedTool → List ResolvedTool → Type 0
BeforeHead t [] = Unit
BeforeHead t (u ∷ us) = tool_leb t u ≡ true

-- Each tool is not after the next.
abbrev pub InOrder : List ResolvedTool → Type 0
InOrder [] = Unit
InOrder (t ∷ ts) = BeforeHead t ts × InOrder ts

insert-BeforeHead :
    (u t : ResolvedTool) (us : List ResolvedTool)
    → tool_leb u t ≡ true
    → BeforeHead u us
    → BeforeHead u (insert_sorted t us)
unfolding insert_sorted
insert-BeforeHead u t [] first h = first
insert-BeforeHead u t (v ∷ us) first h = elim (Bool-cases (tool_leb t v)) [
  | inl before ↦ rw before first
  | inr after ↦ rw after h
]

insert-InOrder :
    (t : ResolvedTool) (us : List ResolvedTool) → InOrder us → InOrder (insert_sorted t us)
unfolding insert_sorted
insert-InOrder t [] h = (tt, tt)
insert-InOrder t (u ∷ us) (first, h) = elim (Bool-cases (tool_leb t u)) [
  | inl before ↦ rw before (before, (first, h))
  | inr after ↦
      rw after (insert-BeforeHead u t us (tool_leb_total t u after) first, insert-InOrder t us h)
]

sort-InOrder : (ts : List ResolvedTool) → InOrder (sort ts)
unfolding sort
sort-InOrder [] = tt
sort-InOrder (t ∷ ts) = insert-InOrder t (sort ts) (sort-InOrder ts)

-- The tools come in the order of their source, then of their name: none is before its
-- predecessor, whatever the order of the rows.
pub resolve_available-InOrder :
    (policies : List ToolPolicy) (rows : List TenantTool)
    → InOrder (resolve_available policies rows)
unfolding resolve_available
resolve_available-InOrder policies rows =
    sort-InOrder (resolve_builtins policies catalog ++ resolve_tenant_tools rows)
