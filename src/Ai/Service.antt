-- ===== src/Ai/Service.antt =====
-- A completion over several attempts, each with its retries: `run_attempts_traced` and
-- `retry_delay` of backend/crates/modules/ai/src/service.rs. Logs and the measured latencies are
-- left out; a pause is recorded by its length before the jitter.
pub mod Failover
pub mod Bounds
use customer_service_chat_sy.Base.{
  ℕ, not, List, [], ◌∷◌, ◌++◌, Option, none, some, Text, ltb, get_elem?, if◌then◌else◌, Result, ok,
  err,
}
use customer_service_chat_sy.Providers.Contract.{
  ToolSpec, ToolCall, Message, ChatRequest, TokenUsage, FinishReason, ChatCompletion, ErrorCategory,
  ProviderError, ChatProvider,
}
use customer_service_chat_sy.Providers.Registry.{Registry, resolve}

pub record AiInput : Type 0 where
  pub system_prompt : Option Text
  pub messages : List Message
  pub tools : List ToolSpec

pub record AiCallResult : Type 0 where
  pub content : Text
  pub provider : Text
  pub model : Text
  pub usage : TokenUsage
  pub finish : FinishReason
  pub tool_calls : List ToolCall

pub data AiCallError : Type 0 where
  not_configured : AiCallError
  of_provider : (category : ErrorCategory) (provider model : Text) → AiCallError
  internal : Text → AiCallError

pub record Attempt : Type 0 where
  pub provider : Text
  pub model : Text
  pub key : Text
  pub max_output_tokens : Option ℕ
  pub temperature : Option ℕ

abbrev pub retry_base_ms : List ℕ
retry_base_ms = 200 ∷ 1000 ∷ []

-- What is done outside: calls, and pauses, of which `none` stands for the panic of an index out of
-- range.
pub data Act : Type 0 where
  called : (provider model : Text) → Act
  paused : Option ℕ → Act

-- After the retries of one attempt: the next one, with the last error, or the answer.
pub data Flow : Type 0 where
  goes_on : (last_error : Option AiCallError) → Flow
  returns : Result AiCallResult AiCallError → Flow

abbrev pub request_of : AiInput → Option Text → Attempt → ChatRequest
request_of input request_id attempt = record {
  system_prompt = input.system_prompt;
  messages = input.messages;
  model = attempt.model;
  max_output_tokens = attempt.max_output_tokens;
  temperature = attempt.temperature;
  request_id = request_id;
  tools = input.tools;
}

abbrev pub result_of : Attempt → ChatCompletion → AiCallResult
result_of attempt completion = record {
  content = completion.content;
  provider = attempt.provider;
  model = completion.model;
  usage = completion.usage;
  finish = completion.finish;
  tool_calls = completion.tool_calls;
}

abbrev pub error_of : Attempt → ProviderError → AiCallError
error_of attempt e = of_provider e.category attempt.provider attempt.model

-- `retry_delay`, before the jitter.
abbrev pub retry_delay : ℕ → Option ℕ
retry_delay retry = get_elem? retry_base_ms retry

abbrev pub pause_after : ℕ → List Act
pause_after retry = if ltb retry 2 then paused (retry_delay retry) ∷ [] else []

abbrev pub unwrap_or : Option AiCallError → AiCallError → AiCallError
unwrap_or none e = e
unwrap_or (some e) d = e

-- `0..=2`.
abbrev pub retries : List ℕ
retries = 0 ∷ 1 ∷ 2 ∷ []

abbrev pub Attempted : Type 0 → Type 0
Attempted World = World × List Act × Flow

abbrev pub Answered : Type 0 → Type 0
Answered World = World × List Act × Result AiCallResult AiCallError

module _ {World : Type 0} where
  -- What one retry does with the answer; `again` are the retries that are left.
  abbrev pub after_call :
      Attempt
      → (retry : ℕ) → World × Result ChatCompletion ProviderError
      → (again : World → (last_error : Option AiCallError) → Attempted World) → Attempted World
  after_call attempt retry (world, ok completion) again = (
    world,
    called attempt.provider attempt.model ∷ [],
    returns (ok (result_of attempt completion)),
  )
  after_call attempt retry (world, err e) again =
      let (world', acts, flow) = again world (some (error_of attempt e)) in
      let call = called attempt.provider attempt.model in
      if not e.retriable
      then (world, call ∷ [], returns (err (error_of attempt e)))
      else (world', call ∷ pause_after retry ++ acts, flow)

  -- The loop over the retries.
  unfoldable pub retry_loop :
      ChatProvider World
      → Attempt
      → ChatRequest
      → (left : List ℕ) → World
      → (last_error : Option AiCallError) → Attempted World
  retry_loop provider attempt req [] world last_error = (world, [], goes_on last_error)
  retry_loop provider attempt req (retry ∷ left) world last_error =
      after_call attempt retry (provider.complete world attempt.key req)
        (retry_loop provider attempt req left)

  -- What follows an attempt; `next` are the attempts that are left.
  abbrev pub after_attempt :
      Attempted World
      → (next : World → (last_error : Option AiCallError) → Answered World) → Answered World
  after_attempt (world, acts, returns answer) next = (world, acts, answer)
  after_attempt (world, acts, goes_on last_error) next =
      let (world', acts', answer) = next world last_error in (world', acts ++ acts', answer)

  abbrev pub on_provider :
      AiInput
      → (request_id : Option Text) → Attempt
      → Option (ChatProvider World)
      → World
      → (last_error : Option AiCallError)
      → (next : World → (last_error : Option AiCallError) → Answered World) → Answered World
  on_provider input request_id attempt none world last_error next = next world last_error
  on_provider input request_id attempt (some provider) world last_error next =
      after_attempt
        (retry_loop provider attempt (request_of input request_id attempt) retries world last_error)
        next

  -- The loop over the attempts.
  unfoldable pub attempt_loop :
      Registry World
      → AiInput
      → (request_id : Option Text) → (attempts : List Attempt) → World
      → (last_error : Option AiCallError) → Answered World
  attempt_loop registry input request_id [] world last_error =
      (world, [], err (unwrap_or last_error not_configured))
  attempt_loop registry input request_id (attempt ∷ attempts) world last_error =
      on_provider input request_id attempt (resolve registry attempt.provider) world last_error
        (attempt_loop registry input request_id attempts)

  -- `run_attempts_traced`.
  unfoldable pub run_attempts :
      Registry World
      → AiInput
      → (request_id : Option Text) → (attempts : List Attempt) → World
      → Answered World
  run_attempts registry input request_id attempts world =
      attempt_loop registry input request_id attempts world none
