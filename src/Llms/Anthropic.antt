-- ===== src/Llms/Anthropic.antt =====
-- packages/llms/src/protocols/anthropic-messages.ts: the decoder of a streamed turn.
--
-- A chunk is the JSON value under its cast: a field that is missing, or null, or that a `typeof`
-- test refuses, is none.
pub mod Steps
pub mod Accepted
mod Tests
use swain.Common.{
  ℕ, ◌+◌, String, Bool, true, false, not, ◌&&◌, ◌||◌, Option, none, some, List, [], ◌∷◌, ◌++◌,
  if◌then◌else◌, str_eq, Indexed, find_at, put_at, remove_at, entries_at, or_else, first_of,
  is_some_text,
}
use swain.Llms.Messages.{◌&◌, decimal, Usage}
use swain.Llms.Turn.{
  LlmEvent, text_start, text_delta, text_end, reasoning_start, reasoning_delta, reasoning_end,
  provider_error, finished, FinishReason, stop, length, tool_call_reason, refusal, unknown,
}
use swain.Llms.Client.{
  LlmError, Fallible, yields, fails, LlmErrorReason, overloaded, rate_limited, auth_failed,
  invalid_request, server_error, context_length_exceeded,
}
use swain.Llms.ToolInput
use swain.Llms.ToolInput.{Assembler}
use swain.Llms.Http.{is_context_overflow}
use swain.Llms.Stream.{Streamed, decode_with}

pub record WireUsage : Type 0 where
  pub input_tokens : Option ℕ
  pub output_tokens : Option ℕ
  pub cache_creation_input_tokens : Option ℕ
  pub cache_read_input_tokens : Option ℕ

pub record WireBlock : Type 0 where
  pub block_type : Option String
  pub id : Option String
  pub name : Option String

pub record WireDelta : Type 0 where
  pub delta_type : Option String
  pub text : Option String
  pub thinking : Option String
  pub partial_json : Option String
  pub stop_reason : Option String

pub record WireError : Type 0 where
  pub error_type : Option String
  pub message : Option String

pub record WireChunk : Type 0 where
  pub chunk_type : Option String
  pub index : Option ℕ
  pub message_usage : Option WireUsage
  pub content_block : Option WireBlock
  pub delta : Option WireDelta
  pub usage : Option WireUsage
  pub error : Option WireError

pub data Block : Type 0 where
  text reasoning tool : (id : String) → Block

pub record DecodeState : Type 0 where
  pub assembler : Assembler
  pub blocks : Indexed Block
  pub text_count : ℕ
  pub reasoning_count : ℕ
  pub tool_count : ℕ
  pub finish_reason : Option FinishReason
  pub input_tokens : Option ℕ
  pub output_tokens : Option ℕ
  pub cache_creation_tokens : Option ℕ
  pub cache_read_tokens : Option ℕ

abbrev pub make_state : DecodeState
make_state = record {
  assembler = [];
  blocks = [];
  text_count = 0;
  reasoning_count = 0;
  tool_count = 0;
  finish_reason = none;
  input_tokens = none;
  output_tokens = none;
  cache_creation_tokens = none;
  cache_read_tokens = none;
}

unfoldable pub lower_stop_reason : String → FinishReason
lower_stop_reason reason =
    if str_eq reason "end_turn" || str_eq reason "stop_sequence"
    then stop
    else if str_eq reason "max_tokens"
    then length
    else if str_eq reason "tool_use"
    then tool_call_reason
    else if str_eq reason "refusal"
    then refusal
    else unknown

-- `FATAL_ERROR_REASONS`, with whether the error is retryable.
unfoldable pub fatal_error_reason : String → Option (LlmErrorReason × Bool)
fatal_error_reason t =
    if str_eq t "overloaded_error"
    then some (overloaded, true)
    else if str_eq t "rate_limit_error"
    then some (rate_limited, true)
    else if str_eq t "authentication_error"
    then some (auth_failed, false)
    else if str_eq t "permission_error"
    then some (auth_failed, false)
    else if str_eq t "invalid_request_error"
    then some (invalid_request, false)
    else if str_eq t "not_found_error"
    then some (invalid_request, false)
    else if str_eq t "api_error"
    then some (server_error, true)
    else none

abbrev no_block : WireBlock
no_block = record { block_type = none; id = none; name = none }

pub start_wire : ℕ → WireBlock → DecodeState → List LlmEvent × DecodeState
start_wire index b s =
    let text_id = "text-" & decimal (s.text_count + 1) in
    let reasoning_id = "reasoning-" & decimal (s.reasoning_count + 1) in
    let tool_id = or_else b.id ("call-" & decimal (s.tool_count + 1)) in
    let (started, opened) = ToolInput.start tool_id (or_else b.name "") s.assembler in
    if is_some_text "text" b.block_type
    then (
      text_start text_id ∷ [],
      record s {
        text_count = s.text_count + 1;
        blocks = put_at index (Block.text text_id) s.blocks;
      },
    )
    else if is_some_text "thinking" b.block_type
    then (
      reasoning_start reasoning_id ∷ [],
      record s {
        reasoning_count = s.reasoning_count + 1;
        blocks = put_at index (reasoning reasoning_id) s.blocks;
      },
    )
    else if is_some_text "tool_use" b.block_type
    then (
      started ∷ [],
      record s {
        tool_count = s.tool_count + 1;
        blocks = put_at index (tool tool_id) s.blocks;
        assembler = opened;
      },
    )
    else ([], s)

unfoldable pub start_block : WireChunk → DecodeState → List LlmEvent × DecodeState
unfolding start_wire
start_block c s = start_wire (or_else c.index 0) (or_else c.content_block no_block) s

-- The delta of an open block, by the block's kind.
pub delta_of : Option Block → WireDelta → DecodeState → List LlmEvent × DecodeState
delta_of none d s = ([], s)
delta_of (some (Block.text id)) d s = elim d.text [
  | none ↦ ([], s)
  | some t ↦ (if is_some_text "text_delta" d.delta_type then text_delta id t ∷ [] else [], s)
]
delta_of (some (reasoning id)) d s = elim d.thinking [
  | none ↦ ([], s)
  | some t ↦
      (if is_some_text "thinking_delta" d.delta_type then reasoning_delta id t ∷ [] else [], s)
]
delta_of (some (tool id)) d s = elim d.partial_json [
  | none ↦ ([], s)
  | some t ↦
      let (event, assembler) = ToolInput.append id t s.assembler in
      if is_some_text "input_json_delta" d.delta_type && not (str_eq t "")
      then (event ∷ [], record s { assembler = assembler })
      else ([], s)
]

unfoldable pub delta_block : WireChunk → DecodeState → List LlmEvent × DecodeState
unfolding delta_of
delta_block c s = elim c.delta [
  | none ↦ ([], s)
  | some d ↦ delta_of (find_at (or_else c.index 0) s.blocks) d s
]

unfoldable pub apply_usage : Option WireUsage → DecodeState → DecodeState
apply_usage none s = s
apply_usage (some u) s = record s {
  input_tokens = first_of u.input_tokens s.input_tokens;
  output_tokens = first_of u.output_tokens s.output_tokens;
  cache_creation_tokens = first_of u.cache_creation_input_tokens s.cache_creation_tokens;
  cache_read_tokens = first_of u.cache_read_input_tokens s.cache_read_tokens;
}

-- `usage` of the finish event.
usage_of : DecodeState → Option Usage
usage_of s = elim (first_of s.input_tokens s.output_tokens) [
  | none ↦ none
  | some _ ↦ some (record {
    input_tokens = or_else s.input_tokens 0;
    output_tokens = or_else s.output_tokens 0;
    active_context_tokens = some (
        or_else s.input_tokens 0
        + or_else s.output_tokens 0
        + or_else s.cache_creation_tokens 0
        + or_else s.cache_read_tokens 0);
  })
]

block_ends : List Block → List LlmEvent
block_ends [] = []
block_ends (Block.text id ∷ bs) = text_end id ∷ block_ends bs
block_ends (reasoning id ∷ bs) = reasoning_end id ∷ block_ends bs
block_ends (tool id ∷ bs) = block_ends bs

-- What `finishAll` gives, put back into the state.
abbrev with_tools :
    DecodeState → Fallible (List LlmEvent) × Assembler → Fallible (List LlmEvent × DecodeState)
with_tools s (fails x, a) = fails x
with_tools s (yields es, a) = yields (es, record s { assembler = a })

apply_stop_reason : Option WireDelta → DecodeState → DecodeState
apply_stop_reason none s = s
apply_stop_reason (some d) s = elim d.stop_reason [
  | none ↦ s
  | some reason ↦ record s { finish_reason = some (lower_stop_reason reason) }
]

abbrev no_error : WireError
no_error = record { error_type = none; message = none }

module _ (parse : String → Option String) (to_lower : String → String) where
  stopped : Option Block → DecodeState → Fallible (List LlmEvent × DecodeState)
  stopped none s = yields ([], s)
  stopped (some (Block.text id)) s = yields (text_end id ∷ [], s)
  stopped (some (reasoning id)) s = yields (reasoning_end id ∷ [], s)
  stopped (some (tool id)) s = with_tools s (ToolInput.finish_all parse s.assembler)

  unfoldable pub stop_block : WireChunk → DecodeState → Fallible (List LlmEvent × DecodeState)
  unfolding stopped
  stop_block c s =
      let index = or_else c.index 0 in
      stopped (find_at index s.blocks) (record s { blocks = remove_at index s.blocks })

  failed_with : String → String → Option (LlmErrorReason × Bool) → Fallible (List LlmEvent)
  failed_with error_type message none =
      yields (provider_error (record { message = message; code = some error_type }) ∷ [])
  failed_with error_type message (some (reason, retryable)) =
      fails (record { reason = reason; message = message; retryable = retryable })

  unfoldable pub handle_error : WireChunk → Fallible (List LlmEvent)
  unfolding failed_with fatal_error_reason
  handle_error c =
      let e = or_else c.error no_error in
      let error_type = or_else e.error_type "unknown_error" in
      let message = or_else e.message "provider stream error" in
      if is_context_overflow to_lower message
      then fails (record { reason = context_length_exceeded; message = message; retryable = false })
      else failed_with error_type message (fatal_error_reason error_type)

  abbrev with_state :
      DecodeState → Fallible (List LlmEvent) → Fallible (List LlmEvent × DecodeState)
  with_state s (fails x) = fails x
  with_state s (yields es) = yields (es, s)

  unfoldable pub handle_chunk : WireChunk → DecodeState → Fallible (List LlmEvent × DecodeState)
  unfolding start_block delta_block stop_block handle_error apply_usage apply_stop_reason
  handle_chunk c s =
      if is_some_text "message_start" c.chunk_type
      then yields ([], apply_usage c.message_usage s)
      else if is_some_text "content_block_start" c.chunk_type
      then yields (start_block c s)
      else if is_some_text "content_block_delta" c.chunk_type
      then yields (delta_block c s)
      else if is_some_text "content_block_stop" c.chunk_type
      then stop_block c s
      else if is_some_text "message_delta" c.chunk_type
      then yields ([], apply_usage c.usage (apply_stop_reason c.delta s))
      else if is_some_text "error" c.chunk_type
      then with_state s (handle_error c)
      else yields ([], s)

  flushed : DecodeState → Fallible (List LlmEvent) → Fallible (List LlmEvent)
  flushed s (fails x) = fails x
  flushed s (yields es) = yields (
      block_ends (entries_at s.blocks)
      ++ es
      ++ finished (record { reason = or_else s.finish_reason unknown; usage = usage_of s }) ∷ [])

  unfoldable pub flush : DecodeState → Fallible (List LlmEvent)
  unfolding flushed usage_of block_ends
  flush s = flushed s (ToolInput.finish_all parse s.assembler).0

  unfoldable pub decode : List WireChunk → Streamed LlmEvent
  unfolding handle_chunk flush decode_with
  decode cs = decode_with handle_chunk flush cs make_state
