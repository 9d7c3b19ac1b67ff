-- ===== src/Llms/Client.antt =====
-- packages/llms/src/llm.ts and schema/errors.ts: what core hands to the client, and what it gets.
-- The client itself, with the providers behind it, is a parameter of the model. An error is kept
-- without the duration after which to retry.
use swain.Common.{ℕ, String, Bool, Option, List}
use swain.Llms.Messages.{Json, Message}
use swain.Llms.Turn.{LlmEvent}

pub data LlmErrorReason : Type 0 where
  rate_limited overloaded context_length_exceeded auth_failed invalid_request : LlmErrorReason
  server_error network_error invalid_provider_output unsupported_feature : LlmErrorReason

pub record LlmError : Type 0 where
  pub reason : LlmErrorReason
  pub message : String
  pub retryable : Bool

-- A tool as the model is told of it: its name, and the JSON text of the whole.
pub record LlmTool : Type 0 where
  pub name : String
  pub definition : Json

-- The model of a request is named by its provider and id. No tools mean no tool choice either.
pub record Request : Type 0 where
  pub provider : String
  pub model_id : String
  pub system : String
  pub messages : List Message
  pub tools : List LlmTool
  pub generation : Json
  pub max_tokens : Option ℕ
  pub provider_options : Json

-- A stream collected to its end, or the error that it ended with.
pub data Reply : Type 0 where
  replied : List LlmEvent → Reply
  failed : LlmError → Reply

-- An effect of the decoders: what it gives, or the error that it fails with.
pub data Fallible {ℓ} (A : Type ℓ) : Type ℓ where
  yields : A → Fallible A
  fails : LlmError → Fallible A
