-- ===== src/Llms/Codex/Wire.antt =====
-- packages/llms/src/protocols/openai-codex-responses.ts: what a chunk has, and what is read off it.
--
-- A chunk is the JSON value under its cast to `WireChunk`: a field that is missing, or that a
-- `typeof` test refuses, is none. A null where the cast has none is left out. The code of an error
-- is the text that `String` makes of it.
use swain.Common.{
  ℕ, ◌+◌, String, Bool, false, ◌||◌, Option, none, some, List, [], any, if◌then◌else◌, str_eq,
  includes, is_some_text, or_else,
}
use swain.Llms.Messages.{◌&◌, Usage}
use swain.Llms.Turn.{FinishReason, stop, length, tool_call_reason, content_filter, unknown}
use swain.Llms.Client.{LlmError, LlmErrorReason, rate_limited, auth_failed, server_error}

pub record WireItem : Type 0 where
  pub item_type : Option String
  pub id : Option String
  pub call_id : Option String
  pub name : Option String

pub record WireError : Type 0 where
  pub code : Option String
  pub message : Option String

pub record WireUsage : Type 0 where
  pub input_tokens : Option ℕ
  pub output_tokens : Option ℕ

pub record WireResponse : Type 0 where
  pub output : Option (List WireItem)
  pub usage : Option WireUsage
  pub incomplete_reason : Option String
  pub error : Option WireError

pub record WireChunk : Type 0 where
  pub chunk_type : Option String
  pub item_id : Option String
  pub delta : Option String
  pub arguments : Option String
  pub item : Option WireItem
  pub code : Option String
  pub message : Option String
  pub error : Option WireError
  pub response : Option WireResponse

unfoldable pub is_reasoning_delta : String → Bool
is_reasoning_delta kind =
    str_eq kind "response.reasoning.delta"
    || str_eq kind "response.reasoning_summary_text.delta"
    || str_eq kind "response.reasoning_text.delta"

unfoldable pub is_reasoning_done : String → Bool
is_reasoning_done kind =
    str_eq kind "response.reasoning.done"
    || str_eq kind "response.reasoning_summary_text.done"
    || str_eq kind "response.reasoning_text.done"

unfoldable pub encode_tool_call_id : String → Option String → String
encode_tool_call_id call_id none = call_id
encode_tool_call_id call_id (some item_id) =
    if str_eq item_id "" then call_id else call_id & "|" & item_id

abbrev final : LlmErrorReason → String → LlmError
final reason message = record { reason = reason; message = message; retryable = false }

abbrev error_message : Option WireError → Option String
error_message none = none
error_message (some e) = e.message

abbrev error_code : Option WireError → Option String
error_code none = none
error_code (some e) = e.code

module _ (to_lower : String → String) where
  unfoldable pub fatal_error : Option WireError → LlmError
  fatal_error error =
      let message = or_else (error_message error) "provider stream error" in
      let text = to_lower (or_else (error_code error) "" & " " & message) in
      if includes "quota" text || includes "billing" text || includes "usage limit" text
      then final rate_limited message
      else if includes "auth" text || includes "token" text || includes "unauthorized" text
      then final auth_failed message
      else final server_error message

abbrev pub is_function_call : WireItem → Bool
is_function_call item = is_some_text "function_call" item.item_type

abbrev pub is_call : Option WireItem → Bool
is_call none = false
is_call (some item) = is_function_call item

abbrev pub item_id_of : Option WireItem → Option String
item_id_of none = none
item_id_of (some item) = item.id

unfoldable pub completed_reason : Option WireResponse → FinishReason
completed_reason none = stop
completed_reason (some r) =
    if any is_function_call (or_else r.output []) then tool_call_reason else stop

incomplete_text : Option WireResponse → Option String
incomplete_text none = none
incomplete_text (some r) = r.incomplete_reason

unfoldable pub incomplete_reason : Option WireResponse → FinishReason
unfolding incomplete_text
incomplete_reason response =
    let reason = incomplete_text response in
    if is_some_text "max_output_tokens" reason
    then length
    else if is_some_text "content_filter" reason
    then content_filter
    else unknown

unfoldable pub usage_after : Option WireUsage → Option Usage → Option Usage
usage_after none before = before
usage_after (some u) before =
    let input = or_else u.input_tokens 0 in
    let output = or_else u.output_tokens 0 in
    some (record {
      input_tokens = input;
      output_tokens = output;
      active_context_tokens = some (input + output);
    })

abbrev pub response_usage : Option WireResponse → Option WireUsage
response_usage none = none
response_usage (some r) = r.usage

abbrev pub response_error : Option WireResponse → Option WireError
response_error none = none
response_error (some r) = r.error
