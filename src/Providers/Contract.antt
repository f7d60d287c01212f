-- ===== src/Providers/Contract.antt =====
-- Requests, answers and errors of a model provider: backend/crates/ai-providers/src/contract.rs. A
-- temperature, an f32, is left opaque, as the number of its bits. A provider's client is a function
-- of the world outside, whose state it changes.
use customer_service_chat_sy.Base.{ℕ, Bool, true, false, List, Option, Text, codes, Result}
use customer_service_chat_sy.Tools.Json.{Json}

pub data Role : Type 0 where
  system user assistant tool : Role

pub record ToolSpec : Type 0 where
  pub name : Text
  pub description : Text
  pub input_schema : Json

pub record ToolCall : Type 0 where
  pub id : Text
  pub name : Text
  pub arguments : Json

pub record Message : Type 0 where
  pub role : Role
  pub content : Text
  pub tool_calls : List ToolCall
  pub tool_call_id : Option Text

pub record ChatRequest : Type 0 where
  pub system_prompt : Option Text
  pub messages : List Message
  pub model : Text
  pub max_output_tokens : Option ℕ
  pub temperature : Option ℕ
  pub request_id : Option Text
  pub tools : List ToolSpec

pub record TokenUsage : Type 0 where
  pub input : Option ℕ
  pub output : Option ℕ

pub data FinishReason : Type 0 where
  stop length_limit tool_use other : FinishReason

pub record ChatCompletion : Type 0 where
  pub content : Text
  pub model : Text
  pub usage : TokenUsage
  pub finish : FinishReason
  pub tool_calls : List ToolCall

pub data ErrorCategory : Type 0 where
  authentication rate_limited unavailable timeout invalid_request : ErrorCategory

abbrev pub category_text : ErrorCategory → Text
category_text authentication = codes "authentication"
category_text rate_limited = codes "rate_limited"
category_text unavailable = codes "unavailable"
category_text timeout = codes "timeout"
category_text invalid_request = codes "invalid_request"

-- `ErrorCategory::retriable`.
abbrev pub is_retriable : ErrorCategory → Bool
is_retriable rate_limited = true
is_retriable unavailable = true
is_retriable timeout = true
is_retriable _ = false

pub record ProviderError : Type 0 where
  pub category : ErrorCategory
  pub retriable : Bool
  pub detail : Text

-- `ChatProvider::complete`, with the key's text for a `SecretKey`.
pub record ChatProvider (World : Type 0) : Type 0 where
  pub complete : World → (key : Text) → ChatRequest → World × Result ChatCompletion ProviderError
