-- ===== src/Ai/Completion.antt =====
-- A tenant's completion from its configuration to the record of its usage: `complete` and
-- `complete_with_override` of backend/crates/modules/ai/src/service.rs, and the row that `insert`
-- of usage.rs writes. Parsing a fallback entry is serde's, a parameter; so are the cipher and
-- the providers' world.
pub mod Usage
mod Examples
use customer_service_chat_sy.Base.{
  ℕ, suc, ◌-◌, ◌%◌, ◌^◌, Bool, false, List, [], ◌∷◌, ◌++◌, Option, none, some, Text, codes, ltb,
  if◌then◌else◌, Result, ok, err,
}
use customer_service_chat_sy.Tools.Json.{Json, as_array}
use customer_service_chat_sy.Providers.Contract.{Message, category_text}
use customer_service_chat_sy.Providers.Registry.{Registry}
use customer_service_chat_sy.Ai.Resolution.{
  tenant, Int32, pos, negsuc, AiConfigRow, CredentialRow, ResolvedConfig, Sealing, resolve_config,
  resolve_credential,
}
use customer_service_chat_sy.Ai.Service.{
  AiInput, AiCallResult, AiCallError, not_configured, of_provider, internal, Attempt, Answered,
  run_attempts,
}

pub record AiCallContext : Type 0 where
  pub tenant_id : ℕ
  pub request_id : Option Text

pub record FallbackEntry : Type 0 where
  pub provider : Text
  pub model : Text

-- The two parts of the JSON that is kept of a request.
pub record RequestContent : Type 0 where
  pub system_prompt : Option Text
  pub messages : List Message

pub record UsageWrite : Type 0 where
  pub tenant_id : ℕ
  pub provider : Text
  pub model : Text
  pub input_tokens : Option Int32
  pub output_tokens : Option Int32
  pub status : Text
  pub error_category : Option Text
  pub streamed : Bool
  pub latency_ms : Int32
  pub request_id : Option Text
  pub request_content : Option RequestContent
  pub response_content : Option Text

pub record Db : Type 0 where
  pub configurations : List AiConfigRow
  pub credentials : List CredentialRow
  pub usage : List UsageWrite

-- The errors of the queries: of the configuration, of the credentials by their number, and whether
-- the usage can be written.
pub record Faults : Type 0 where
  pub config_error : Option Text
  pub credential_error : ℕ → Option Text
  pub inserts_usage : Bool

-- `as i32` and `as u32`.
abbrev pub as_i32 : ℕ → Int32
as_i32 v = let w = v % 2 ^ 32 in if ltb w (2 ^ 31) then pos w else negsuc (2 ^ 32 - 1 - w)

abbrev pub as_u32 : Int32 → ℕ
as_u32 (pos v) = v
as_u32 (negsuc v) = 2 ^ 32 - 1 - v

abbrev pub map_option {ℓ κ} : {A : Type ℓ} {B : Type κ} → (A → B) → Option A → Option B
map_option f none = none
map_option f (some a) = some (f a)

-- `filter_map` over the entries that can be parsed.
abbrev pub parsed_entries : (Json → Option FallbackEntry) → List Json → List FallbackEntry
parsed_entries parse [] = []
parsed_entries parse (v ∷ vs) = elim (parse v) [
  | none ↦ parsed_entries parse vs
  | some e ↦ e ∷ parsed_entries parse vs
]

abbrev pub fallbacks_of : (Json → Option FallbackEntry) → Option (List Json) → List FallbackEntry
fallbacks_of parse none = []
fallbacks_of parse (some vs) = parsed_entries parse vs

abbrev pub request_content_of : Bool → AiInput → Option RequestContent
request_content_of capture_content input =
    if capture_content
    then some (record { system_prompt = input.system_prompt; messages = input.messages })
    else none

abbrev pub success_usage :
    AiCallContext
    → (capture_content : Bool) → (elapsed_millis : ℕ) → AiInput
    → AiCallResult
    → UsageWrite
success_usage ctx capture_content elapsed_millis input r = record {
  tenant_id = ctx.tenant_id;
  provider = r.provider;
  model = r.model;
  input_tokens = map_option as_i32 r.usage.input;
  output_tokens = map_option as_i32 r.usage.output;
  status = codes "success";
  error_category = none;
  streamed = false;
  latency_ms = as_i32 elapsed_millis;
  request_id = ctx.request_id;
  request_content = request_content_of capture_content input;
  response_content = if capture_content then some r.content else none;
}

abbrev pub failure_usage :
    AiCallContext
    → (capture_content : Bool) → (elapsed_millis : ℕ) → AiInput
    → (category provider model : Text) → UsageWrite
failure_usage ctx capture_content elapsed_millis input category provider model = record {
  tenant_id = ctx.tenant_id;
  provider = provider;
  model = model;
  input_tokens = none;
  output_tokens = none;
  status = codes "failure";
  error_category = some category;
  streamed = false;
  latency_ms = as_i32 elapsed_millis;
  request_id = ctx.request_id;
  request_content = if capture_content then request_content_of capture_content input else none;
  response_content = none;
}

-- What the answer leaves in the table of usage: nothing, when no provider was called.
abbrev pub usage_of :
    AiCallContext
    → (capture_content : Bool) → (elapsed_millis : ℕ) → AiInput
    → Result AiCallResult AiCallError
    → Option UsageWrite
usage_of ctx capture_content elapsed_millis input (ok r) =
    some (success_usage ctx capture_content elapsed_millis input r)
usage_of ctx capture_content elapsed_millis input (err (of_provider category provider model)) =
    some (
      failure_usage ctx capture_content elapsed_millis input (category_text category) provider
        model)
usage_of ctx capture_content elapsed_millis input (err _) = none

-- `usage::insert`, whose failure is only logged.
abbrev pub insert_usage : Faults → Option UsageWrite → Db → Db
insert_usage faults none db = db
insert_usage faults (some w) db =
    if faults.inserts_usage then record db { usage = db.usage ++ w ∷ [] } else db

abbrev pub Completed : Type 0 → Type 0
Completed World = World × Db × Result AiCallResult AiCallError

module _ {World : Type 0} (registry : Registry World) (s : Sealing)
    (parse : Json → Option FallbackEntry) (master_key : Option Text) (db : Db) (faults : Faults)
    (ctx : AiCallContext) (input : AiInput) (elapsed_millis : ℕ) where
  abbrev pub credential :
      (master : Text) → (n : ℕ) → (provider : Text) → Result (Option (Text × Bool)) Text
  credential master n provider =
      resolve_credential s db.credentials (faults.credential_error n) master (tenant ctx.tenant_id)
        provider

  abbrev pub attempt_of : AiConfigRow → FallbackEntry → Text → Attempt
  attempt_of config entry key = record {
    provider = entry.provider;
    model = entry.model;
    key = key;
    max_output_tokens = map_option as_u32 config.max_output_tokens;
    temperature = config.temperature;
  }

  abbrev pub push_attempt :
      AiConfigRow
      → FallbackEntry
      → Result (Option (Text × Bool)) Text
      → Result (List Attempt) Text
      → Result (List Attempt) Text
  push_attempt config entry (err e) rest = err e
  push_attempt config entry (ok none) rest = rest
  push_attempt config entry (ok (some _)) (err e) = err e
  push_attempt config entry (ok (some (key, own))) (ok attempts) =
      ok (attempt_of config entry key ∷ attempts)

  -- An attempt for each entry that has a credential; `n` counts the queries.
  unfoldable pub attempts_for :
      (master : Text) → AiConfigRow → (n : ℕ) → List FallbackEntry → Result (List Attempt) Text
  attempts_for master config n [] = ok []
  attempts_for master config n (entry ∷ entries) =
      push_attempt config entry (credential master n entry.provider)
        (attempts_for master config (suc n) entries)

  -- The configured provider first, then the fallbacks.
  abbrev pub entries_of : AiConfigRow → List FallbackEntry
  entries_of config =
      record { provider = config.provider; model = config.model }
      ∷ fallbacks_of parse (as_array config.fallbacks)

  abbrev pub recorded : (capture_content : Bool) → Answered World → Completed World
  recorded capture_content (world, acts, answer) = (
    world,
    insert_usage faults (usage_of ctx capture_content elapsed_millis input answer) db,
    answer,
  )

  -- From the attempts on, the same code in both.
  abbrev pub run : World → (capture_content : Bool) → Result (List Attempt) Text → Completed World
  run world capture_content (err e) = (world, db, err (internal e))
  run world capture_content (ok []) = (world, db, err not_configured)
  run world capture_content (ok (attempt ∷ attempts)) =
      recorded capture_content
        (run_attempts registry input ctx.request_id (attempt ∷ attempts) world)

  abbrev pub with_master : World → ResolvedConfig → Option Text → Completed World
  with_master world config none = (world, db, err not_configured)
  with_master world config (some master) =
      run world config.capture_content (attempts_for master config.row 0 (entries_of config.row))

  abbrev pub with_config : World → Result (Option ResolvedConfig) Text → Completed World
  with_config world (err e) = (world, db, err (internal e))
  with_config world (ok none) = (world, db, err not_configured)
  with_config world (ok (some config)) = with_master world config master_key

  unfoldable pub complete : World → Completed World
  complete world =
      with_config world
        (resolve_config db.configurations faults.config_error (tenant ctx.tenant_id))

  abbrev pub override_attempt :
      (provider model : Text) → Result (Option (Text × Bool)) Text → Result (List Attempt) Text
  override_attempt provider model (err e) = err e
  override_attempt provider model (ok none) = ok []
  override_attempt provider model (ok (some (key, own))) = ok (
      record {
        provider = provider;
        model = model;
        key = key;
        max_output_tokens = none;
        temperature = none;
      }
      ∷ [])

  abbrev pub override_master :
      (provider model : Text) → World → ResolvedConfig → Option Text → Completed World
  override_master provider model world config none = (world, db, err not_configured)
  override_master provider model world config (some master) =
      run world config.capture_content
        (override_attempt provider model (credential master 0 provider))

  abbrev pub override_config :
      (provider model : Text) → World → Result (Option ResolvedConfig) Text → Completed World
  override_config provider model world (err e) = (world, db, err (internal e))
  override_config provider model world (ok none) = (world, db, err not_configured)
  override_config provider model world (ok (some config)) =
      override_master provider model world config master_key

  -- A missing credential is no attempt, which `run` answers as not configured.
  unfoldable pub complete_with_override : (provider model : Text) → World → Completed World
  complete_with_override provider model world =
      override_config provider model world
        (resolve_config db.configurations faults.config_error (tenant ctx.tenant_id))
