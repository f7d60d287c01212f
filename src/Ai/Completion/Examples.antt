-- ===== src/Ai/Completion/Examples.antt =====
-- Completions at concrete inputs.
use customer_service_chat_sy.Base.{
  ℕ, suc, true, false, ◌≡◌, refl, List, [], ◌∷◌, map, none, some, Text, codes, eqb, if◌then◌else◌,
  lookup, ok, err,
}
use customer_service_chat_sy.Tools.Json.{Json, nil}
use customer_service_chat_sy.Providers.Contract.{
  ChatCompletion, ProviderError, ChatProvider, unavailable, stop,
}
use customer_service_chat_sy.Providers.Registry.{Registry, resolve}
use customer_service_chat_sy.Ai.Resolution.{
  AiConfigRow, CredentialRow, Sealing, resolve_config, resolve_credential,
}
use customer_service_chat_sy.Ai.Service.{
  AiInput, Attempt, result_of, retry_loop, attempt_loop, run_attempts,
}
use customer_service_chat_sy.Ai.Service.Failover.{Answers, run_attempts-Answers}
use customer_service_chat_sy.Ai.Service.Bounds.{Within, run_attempts-Within}
use customer_service_chat_sy.Ai.Completion.{
  AiCallContext, UsageWrite, Db, Faults, attempts_for, complete, complete_with_override,
}
use customer_service_chat_sy.Ai.Completion.Usage.{Records, complete-Records}

-- A provider that is unavailable at its first call, at time 0, and answers from then on.
abbrev some_completion : ChatCompletion
some_completion = record {
  content = codes "hello";
  model = codes "m-1";
  usage = record { input = some 3; output = some 5 };
  finish = stop;
  tool_calls = [];
}

abbrev unavailable_error : ProviderError
unavailable_error = record { category = unavailable; retriable = true; detail = [] }

abbrev late_provider : ChatProvider ℕ
late_provider = record {
  complete = λ w key req. (suc w, if eqb w 0 then err unavailable_error else ok some_completion);
}

abbrev some_registry : Registry ℕ
some_registry = record { registered = λ kind. late_provider; overrides = [] }

abbrev attempt_with : Text → Attempt
attempt_with provider = record {
  provider = provider;
  model = codes "m";
  key = codes "k";
  max_output_tokens = none;
  temperature = none;
}

abbrev some_attempts : List Attempt
some_attempts = attempt_with (codes "unknown") ∷ attempt_with (codes "openai") ∷ []

abbrev some_input : AiInput
some_input = record { system_prompt = none; messages = []; tools = [] }

answered_late :
    (run_attempts some_registry some_input none some_attempts 0).2
    ≡ ok (result_of (attempt_with (codes "openai")) some_completion)
unfolding run_attempts attempt_loop resolve lookup retry_loop
answered_late = refl

run_attempts-Answers_example :
    Answers some_registry some_input none none 0 some_attempts
      (run_attempts some_registry some_input none some_attempts 0).0
      (run_attempts some_registry some_input none some_attempts 0).2
run_attempts-Answers_example = run_attempts-Answers some_registry some_input none some_attempts 0

run_attempts-Within_example :
    Within 6 4 (run_attempts some_registry some_input none some_attempts 0).1
run_attempts-Within_example = run_attempts-Within some_registry some_input none some_attempts 0

abbrev open_sealing : Sealing
open_sealing = record {
  init_error = λ master. none;
  decrypt = λ master nonce ciphertext scope_aad. some ciphertext;
  from_utf8 = some;
  uuid_text = λ n. n ∷ [];
  decimal = λ n. n ∷ [];
}

abbrev platform_config : AiConfigRow
platform_config = record {
  tenant_id = none;
  provider = codes "openai";
  model = codes "m";
  max_output_tokens = none;
  temperature = none;
  fallbacks = Json.array nil;
  capture_content = true;
  deleted = false;
}

abbrev platform_credential : CredentialRow
platform_credential = record {
  tenant_id = none;
  provider = codes "openai";
  ciphertext = codes "k";
  nonce = codes "abcdefghijkl";
  deleted = false;
}

abbrev ai_db : Db
ai_db = record {
  configurations = platform_config ∷ [];
  credentials = platform_credential ∷ [];
  usage = [];
}

abbrev no_faults : Faults
no_faults = record { config_error = none; credential_error = λ n. none; inserts_usage = true }

abbrev some_call : AiCallContext
some_call = record { tenant_id = 7; request_id = none }

-- The platform's configuration asks for the contents, the tenant has none: they are not kept.
platform_capture :
    map
      (λ (w : UsageWrite). w.response_content)
      (complete some_registry open_sealing
        (λ v. none)
        (some (codes "k"))
        ai_db
        no_faults
        some_call
        some_input
        20
        1).1.usage
    ≡ none ∷ []
unfolding complete run_attempts attempt_loop resolve lookup retry_loop resolve_config
    resolve_credential attempts_for
platform_capture = refl

complete-Records_example :
    Records some_registry open_sealing
      (λ v. none)
      (some (codes "k"))
      ai_db
      no_faults
      some_call
      some_input
      20
      (complete some_registry open_sealing
        (λ v. none)
        (some (codes "k"))
        ai_db
        no_faults
        some_call
        some_input
        20
        1).1
    × Records some_registry open_sealing
        (λ v. none)
        (some (codes "k"))
        ai_db
        no_faults
        some_call
        some_input
        20
        (complete_with_override some_registry open_sealing
          (λ v. none)
          (some (codes "k"))
          ai_db
          no_faults
          some_call
          some_input
          20
          (codes "openai")
          (codes "m")
          1).1
complete-Records_example =
    complete-Records some_registry open_sealing (λ v. none) (some (codes "k")) ai_db no_faults
      some_call some_input 20 (codes "openai") (codes "m") 1
