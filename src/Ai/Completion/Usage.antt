-- ===== src/Ai/Completion/Usage.antt =====
-- What a completion keeps of what was said.
use customer_service_chat_sy.Base.{
  ℕ, Bool, true, false, not, ◌&&◌, ◌≡◌, refl, sym, ◌∙◌, ap, ◌⊎◌, inl, inr, List, [], ◌∷◌, ◌++◌,
  Option, none, some, Text, Bool-cases, find, find_sound, Result, ok, err, arith,
}
use customer_service_chat_sy.Tools.Json.{Json}
use customer_service_chat_sy.Providers.Contract.{category_text}
use customer_service_chat_sy.Providers.Registry.{Registry}
use customer_service_chat_sy.Ai.Resolution.{
  tenant, AiConfigRow, ResolvedConfig, Sealing, is_some, is_of, is_config_of, first_of, resolved,
  map_resolved, resolve_config,
}
use customer_service_chat_sy.Ai.Service.{
  AiInput, not_configured, of_provider, internal, Attempt, Answered, run_attempts,
}
use customer_service_chat_sy.Ai.Completion.{
  AiCallContext, FallbackEntry, UsageWrite, Db, Faults, success_usage, failure_usage, insert_usage,
  recorded, run, with_master, with_config, complete, override_master, override_config,
  complete_with_override,
}

abbrev captured : Option AiConfigRow → Bool
captured none = false
captured (some row) = row.capture_content

-- The tenant has a configuration of its own that asks for the contents to be kept.
abbrev pub consents : List AiConfigRow → (tenant_id : ℕ) → Bool
consents rows tenant_id = captured (find (is_config_of (some tenant_id)) rows)

-- Of the usage at most one row more, for the tenant, with no content that it did not ask to keep.
pub data Recorded (configurations : List AiConfigRow) (tenant_id : ℕ) (before : List UsageWrite)
    : List UsageWrite → Type 0 where
  nothing : Recorded configurations tenant_id before before
  one :
      (w : UsageWrite)
      → w.tenant_id ≡ tenant_id
      → (consents configurations tenant_id ≡ true)
        ⊎ ((w.request_content ≡ none) × (w.response_content ≡ none))
      → Recorded configurations tenant_id before (before ++ w ∷ [])

-- Only rows of no tenant are found for the platform.
platform_row :
    (rows : List AiConfigRow) {row : AiConfigRow}
    → find (is_config_of none) rows ≡ some row
    → is_some row.tenant_id ≡ false
platform_row rows {row} e = no_tenant row.tenant_id (find_sound (is_config_of none) rows e)
  where
    no_tenant :
        (tenant_id : Option ℕ)
        → (is_of tenant_id none && not row.deleted) ≡ true
        → is_some tenant_id ≡ false
    no_tenant none h = refl
    no_tenant (some t) h = absurd (ground (arith, h))

resolved-consents :
    (t : ℕ) (own platform : Option AiConfigRow) (config : ResolvedConfig)
    → ((row : AiConfigRow) → platform ≡ some row → is_some row.tenant_id ≡ false)
    → captured own ≡ false
    → map_resolved (tenant t) (first_of own platform) ≡ some config
    → config.capture_content ≡ false
resolved-consents t none none config shared off e = absurd (ground arith)
resolved-consents t none (some row) config shared off e =
    let is_it : resolved (tenant t) row ≡ config = cc e in
    ap (λ (c : ResolvedConfig). c.capture_content) (sym is_it) ∙ rw (shared row refl) refl
resolved-consents t (some row) platform config shared off e =
    let is_it : resolved (tenant t) row ≡ config = cc e in
    ap (λ (c : ResolvedConfig). c.capture_content) (sym is_it) ∙ ground (arith, off)

resolve_config-consents :
    (rows : List AiConfigRow) (failure : Option Text) (t : ℕ) (config : ResolvedConfig)
    → resolve_config rows failure (tenant t) ≡ ok (some config)
    → consents rows t ≡ false
    → config.capture_content ≡ false
unfolding resolve_config
resolve_config-consents rows (some e) t config h off = absurd (ground arith)
resolve_config-consents rows none t config h off =
    resolved-consents t (find (is_config_of (some t)) rows) (find (is_config_of none) rows) config
      (λ row. platform_row rows {row = row}) off (cc h)

module _ {World : Type 0} (registry : Registry World) (s : Sealing)
    (parse : Json → Option FallbackEntry) (master_key : Option Text) (db : Db) (faults : Faults)
    (ctx : AiCallContext) (input : AiInput) (elapsed_millis : ℕ) where
  abbrev pub Records : Db → Type 0
  Records db' =
      (db'.configurations ≡ db.configurations)
      × (db'.credentials ≡ db.credentials)
      × Recorded db.configurations ctx.tenant_id db.usage db'.usage

  unchanged : Records db
  unchanged = (refl, refl, nothing)

  module _ (capture_content : Bool)
      (private : consents db.configurations ctx.tenant_id ≡ false → capture_content ≡ false) where
    consent_or :
        (consents db.configurations ctx.tenant_id ≡ true)
          ⊎ (consents db.configurations ctx.tenant_id ≡ false)
        → (w : UsageWrite)
        → (capture_content ≡ false → (w.request_content ≡ none) × (w.response_content ≡ none))
        → (consents db.configurations ctx.tenant_id ≡ true)
          ⊎ ((w.request_content ≡ none) × (w.response_content ≡ none))
    consent_or (inl yes_they) w quiet = inl yes_they
    consent_or (inr off) w quiet = inr (quiet (private off))

    one_row :
        (w : UsageWrite)
        → w.tenant_id ≡ ctx.tenant_id
        → (capture_content ≡ false → (w.request_content ≡ none) × (w.response_content ≡ none))
        → Records (insert_usage faults (some w) db)
    one_row w here quiet = elim (Bool-cases faults.inserts_usage) [
      | inl inserts ↦ rw inserts (
        refl,
        refl,
        one w here (consent_or (Bool-cases (consents db.configurations ctx.tenant_id)) w quiet),
      )
      | inr fails ↦ rw fails unchanged
    ]

    recorded-Records :
        (x : Answered World)
        → Records
            (recorded registry s parse master_key db faults ctx input elapsed_millis capture_content
              x).1
    recorded-Records (world, acts, ok r) =
        one_row (success_usage ctx capture_content elapsed_millis input r) refl
          (λ off. rw off (refl, refl))
    recorded-Records (world, acts, err (of_provider category provider model)) =
        one_row
          (failure_usage ctx capture_content elapsed_millis input (category_text category) provider
            model)
          refl (λ off. rw off (refl, refl))
    recorded-Records (world, acts, err not_configured) = unchanged
    recorded-Records (world, acts, err (internal e)) = unchanged

    run-Records :
        (world : World) (attempts : Result (List Attempt) Text)
        → Records
            (run registry s parse master_key db faults ctx input elapsed_millis world
              capture_content attempts).1
    run-Records world (err e) = unchanged
    run-Records world (ok []) = unchanged
    run-Records world (ok (attempt ∷ attempts)) =
        recorded-Records (run_attempts registry input ctx.request_id (attempt ∷ attempts) world)

  module _ (config : ResolvedConfig)
      (private : consents db.configurations ctx.tenant_id ≡ false
        → config.capture_content ≡ false) where
    with_master-Records :
        (world : World) (master : Option Text)
        → Records
            (with_master registry s parse master_key db faults ctx input elapsed_millis world config
              master).1
    with_master-Records world none = unchanged
    with_master-Records world (some master) = run-Records config.capture_content private world _

    override_master-Records :
        (provider model : Text) (world : World) (master : Option Text)
        → Records
            (override_master registry s parse master_key db faults ctx input elapsed_millis provider
              model world config master).1
    override_master-Records provider model world none = unchanged
    override_master-Records provider model world (some master) =
        run-Records config.capture_content private world _

  module _ (found : Result (Option ResolvedConfig) Text)
      (private : (config : ResolvedConfig)
        → found ≡ ok (some config)
        → consents db.configurations ctx.tenant_id ≡ false
        → config.capture_content ≡ false) where
    with_config-Records :
        (world : World) (x : Result (Option ResolvedConfig) Text)
        → found ≡ x
        → Records
            (with_config registry s parse master_key db faults ctx input elapsed_millis world x).1
    with_config-Records world (err e) is = unchanged
    with_config-Records world (ok none) is = unchanged
    with_config-Records world (ok (some config)) is =
        with_master-Records config (private config is) world master_key

    override_config-Records :
        (provider model : Text) (world : World) (x : Result (Option ResolvedConfig) Text)
        → found ≡ x
        → Records
            (override_config registry s parse master_key db faults ctx input elapsed_millis provider
              model world x).1
    override_config-Records provider model world (err e) is = unchanged
    override_config-Records provider model world (ok none) is = unchanged
    override_config-Records provider model world (ok (some config)) is =
        override_master-Records config (private config is) provider model world master_key

  -- A completion, with the configured model or with another, leaves the configurations and the
  -- credentials as they are and adds at most one row of usage, for the tenant; the row holds nothing
  -- of the request or of the answer unless the tenant has a configuration of its own that asks for
  -- it, whatever the platform's says.
  pub complete-Records :
      (provider model : Text) (world : World)
      → Records (complete registry s parse master_key db faults ctx input elapsed_millis world).1
        × Records
            (complete_with_override registry s parse master_key db faults ctx input elapsed_millis
              provider model world).1
  unfolding complete complete_with_override
  complete-Records provider model world =
      let found = resolve_config db.configurations faults.config_error (tenant ctx.tenant_id) in
      let private = resolve_config-consents db.configurations faults.config_error ctx.tenant_id in
      (
        with_config-Records found private world found refl,
        override_config-Records found private provider model world found refl,
      )
