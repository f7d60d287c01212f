-- ===== src/Tools/Policy/Available.antt =====
-- What is available: the sort loses and adds nothing, and the settings page agrees.
use mathlib.Core.List.{Memᴰ}
use mathlib.Core.List.Memᴰ
use customer_service_chat_sy.Base.{
  Bool, true, ◌≡◌, refl, sym, ap, ◌∙◌, ◌↔◌, ◌⊎◌, inl, inr, List, [], ◌∷◌, ◌++◌, map, Option, none,
  some, arith, Bool-cases, Option-cases,
}
use customer_service_chat_sy.Tools.Validation.{ResolvedTool}
use customer_service_chat_sy.Tools.Policy.{
  BuiltinTool, catalog, ToolPolicy, TenantTool, BuiltinSetting, policy_of, setting_of, setting,
  builtin_settings, as_builtin, approval_of, resolve_builtins, as_tenant, resolve_tenant_tools,
  tool_leb, insert_sorted, sort, resolve_available,
}

insert_sound :
    (a t : ResolvedTool) (us : List ResolvedTool) → Memᴰ a (insert_sorted t us) → Memᴰ a (t ∷ us)
unfolding insert_sorted
insert_sound a t [] m = m
insert_sound a t (u ∷ us) m = elim (Bool-cases (tool_leb t u)) [
  | inl before ↦ rw (before, insert_sorted) at m
  | inr after ↦ elim (Memᴰ.cases_cons (rw (after, insert_sorted) at m)) [
    | inl e ↦ Memᴰ.tail (Memᴰ.head e)
    | inr rest ↦ elim (Memᴰ.cases_cons (insert_sound a t us rest)) [
      | inl e ↦ Memᴰ.head e
      | inr m' ↦ Memᴰ.tail (Memᴰ.tail m')
    ]
  ]
]

insert_complete :
    (a t : ResolvedTool) (us : List ResolvedTool) → Memᴰ a (t ∷ us) → Memᴰ a (insert_sorted t us)
unfolding insert_sorted
insert_complete a t [] m = m
insert_complete a t (u ∷ us) m = elim (Bool-cases (tool_leb t u)) [
  | inl before ↦ rw before m
  | inr after ↦ rw after (elim (Memᴰ.cases_cons m) [
    | inl e ↦ Memᴰ.tail (insert_complete a t us (Memᴰ.head e))
    | inr rest ↦ elim (Memᴰ.cases_cons rest) [
      | inl e ↦ Memᴰ.head e
      | inr m' ↦ Memᴰ.tail (insert_complete a t us (Memᴰ.tail m'))
    ]
  ])
]

sort_sound : (a : ResolvedTool) (ts : List ResolvedTool) → Memᴰ a (sort ts) → Memᴰ a ts
unfolding sort
sort_sound a [] m = m
sort_sound a (t ∷ ts) m = elim (Memᴰ.cases_cons (insert_sound a t (sort ts) m)) [
  | inl e ↦ Memᴰ.head e
  | inr rest ↦ Memᴰ.tail (sort_sound a ts rest)
]

sort_complete : (a : ResolvedTool) (ts : List ResolvedTool) → Memᴰ a ts → Memᴰ a (sort ts)
unfolding sort
sort_complete a [] m = m
sort_complete a (t ∷ ts) m = insert_complete a t (sort ts) (elim (Memᴰ.cases_cons m) [
  | inl e ↦ Memᴰ.head e
  | inr rest ↦ Memᴰ.tail (sort_complete a ts rest)
])

-- A tool of the catalog that the settings show as enabled, with the approval that they show.
abbrev pub FromSetting : List BuiltinSetting → ResolvedTool → Type 0
FromSetting settings t =
    (s : BuiltinSetting) × Memᴰ s settings
    × (s.enabled ≡ true)
    × (t ≡ as_builtin s.spec s.effective_approval)

-- An enabled tool of the tenant's own.
abbrev pub FromTenant : List TenantTool → ResolvedTool → Type 0
FromTenant rows t = (row : TenantTool) × Memᴰ row rows × (row.enabled ≡ true) × (t ≡ as_tenant row)

further :
    {s : BuiltinSetting} {ss : List BuiltinSetting} {t : ResolvedTool}
    → FromSetting ss t
    → FromSetting (s ∷ ss) t
further (x, m, on, e) = (x, Memᴰ.tail m, on, e)

-- The catalog's loop and the settings' closure agree on one tool.
approval_agrees :
    (tool : BuiltinTool) (policy : Option ToolPolicy) (a : Bool)
    → (approval_of tool policy ≡ some a) ↔ (
        ((setting_of policy tool).enabled ≡ true)
        × ((setting_of policy tool).effective_approval ≡ a))
approval_agrees tool none a = ground arith
approval_agrees tool (some p) a = elim (Bool-cases p.enabled) [
  | inl on ↦ rw on (ground arith)
  | inr off ↦ rw off (ground arith)
]

builtins_sound :
    (policies : List ToolPolicy) (t : ResolvedTool) (tools : List BuiltinTool)
    → Memᴰ t (resolve_builtins policies tools)
    → FromSetting (map (setting policies) tools) t
unfolding resolve_builtins
builtins_sound policies t [] m = elim m [ ]
builtins_sound policies t (tool ∷ tools) m =
    let policy = policy_of policies tool.spec.name in
    elim (Option-cases (approval_of tool policy)) [
      | inl nothing ↦
          further (builtins_sound policies t tools (rw (nothing, resolve_builtins) at m))
      | inr (a, approval) ↦ elim (Memᴰ.cases_cons (rw (approval, resolve_builtins) at m)) [
        | inl e ↦
            let (on, same) = (approval_agrees tool policy a).0 approval in
            (setting policies tool, Memᴰ.head refl, on, e ∙ ap (as_builtin tool.spec) (sym same))
        | inr rest ↦ further (builtins_sound policies t tools rest)
      ]
    ]

builtins_complete :
    (policies : List ToolPolicy) (t : ResolvedTool) (tools : List BuiltinTool)
    → FromSetting (map (setting policies) tools) t
    → Memᴰ t (resolve_builtins policies tools)
unfolding resolve_builtins
builtins_complete policies t [] (s, m, on, e) = absurd (Memᴰ.not-nil m)
builtins_complete policies t (tool ∷ tools) (s, m, on, e) =
    let policy = policy_of policies tool.spec.name in
    elim (Memᴰ.cases_cons m) [
      | inl here ↦
          let approval =
            (approval_agrees tool policy (setting_of policy tool).effective_approval).1
              ((rw here at on), refl) in
          rw approval (Memᴰ.head (rw here at e))
      | inr rest ↦ elim (Option-cases (approval_of tool policy)) [
        | inl nothing ↦ rw nothing (builtins_complete policies t tools (s, rest, on, e))
        | inr (a, approval) ↦
            rw approval (Memᴰ.tail (builtins_complete policies t tools (s, rest, on, e)))
      ]
    ]

tenants_sound :
    (t : ResolvedTool) (rows : List TenantTool)
    → Memᴰ t (resolve_tenant_tools rows)
    → FromTenant rows t
unfolding resolve_tenant_tools
tenants_sound t [] m = elim m [ ]
tenants_sound t (row ∷ rows) m = elim (Bool-cases row.enabled) [
  | inl on ↦ elim (Memᴰ.cases_cons (rw (on, resolve_tenant_tools) at m)) [
    | inl e ↦ (row, Memᴰ.head refl, on, e)
    | inr rest ↦ let (x, x_in, x_on, e) = tenants_sound t rows rest in (x, Memᴰ.tail x_in, x_on, e)
  ]
  | inr off ↦
      let (x, x_in, x_on, e) = tenants_sound t rows (rw (off, resolve_tenant_tools) at m) in
      (x, Memᴰ.tail x_in, x_on, e)
]

tenants_complete :
    (t : ResolvedTool) (rows : List TenantTool)
    → FromTenant rows t
    → Memᴰ t (resolve_tenant_tools rows)
unfolding resolve_tenant_tools
tenants_complete t [] (x, m, on, e) = absurd (Memᴰ.not-nil m)
tenants_complete t (row ∷ rows) (x, m, on, e) = elim (Memᴰ.cases_cons m) [
  | inl here ↦ rw (rw here at on) (Memᴰ.head (e ∙ ap as_tenant here))
  | inr rest ↦ elim (Bool-cases row.enabled) [
    | inl row_on ↦ rw row_on (Memᴰ.tail (tenants_complete t rows (x, rest, on, e)))
    | inr off ↦ rw off (tenants_complete t rows (x, rest, on, e))
  ]
]

-- The assistant may call exactly the tools of the catalog that the settings page shows as
-- enabled, with the approval that the page shows, and the tenant's own tools that are enabled.
pub resolve_available_iff :
    (policies : List ToolPolicy) (rows : List TenantTool) (t : ResolvedTool)
    → Memᴰ t (resolve_available policies rows)
      ↔ (FromSetting (builtin_settings policies) t ⊎ FromTenant rows t)
unfolding resolve_available
resolve_available_iff policies rows t = (
  λ m. elim (Memᴰ.append_cases (resolve_builtins policies catalog) (sort_sound t _ m)) [
    | inl b ↦ inl (builtins_sound policies t catalog b)
    | inr o ↦ inr (tenants_sound t rows o)
  ],
  λ source.
      sort_complete t (resolve_builtins policies catalog ++ resolve_tenant_tools rows)
        (elim source [
          | inl b ↦ Memᴰ.append_left _ (builtins_complete policies t catalog b)
          | inr o ↦
              Memᴰ.append_right (resolve_builtins policies catalog) (tenants_complete t rows o)
        ]),
)
