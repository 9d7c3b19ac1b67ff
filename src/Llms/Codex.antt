-- ===== src/Llms/Codex.antt =====
-- packages/llms/src/protocols/openai-codex-responses.ts: the decoder of a streamed turn.
--
-- `parse` is `JSON.parse`, and `to_lower` is `toLowerCase`.
pub mod Wire
pub mod Contents
pub mod Calls
pub mod Accepted
mod Tests
use swain.Common.{
  ℕ, ◌+◌, String, Bool, true, false, ◌||◌, Option, none, some, List, [], ◌∷◌, ◌++◌, map, any,
  if◌then◌else◌, str_eq, includes, is_some_text, Dict, insert, remove, lookup, or_else, first_of,
}
use swain.Llms.Messages.{◌&◌, decimal, Usage}
use swain.Llms.Turn.{
  LlmEvent, text_start, text_delta, text_end, reasoning_start, reasoning_delta, reasoning_end,
  finished, FinishReason, stop, length, tool_call_reason, content_filter, unknown,
}
use swain.Llms.Client.{
  LlmError, LlmErrorReason, Fallible, yields, fails, rate_limited, auth_failed, server_error,
}
use swain.Llms.ToolInput
use swain.Llms.ToolInput.{Assembler}
use swain.Llms.Codex.Wire.{
  WireItem, WireError, WireChunk, is_reasoning_delta, is_reasoning_done, encode_tool_call_id,
  fatal_error, is_function_call, is_call, item_id_of, completed_reason, incomplete_reason,
  usage_after, response_usage, response_error,
}
use swain.Llms.Stream.{Streamed, decode_with, and_then}

pub record ToolEntry : Type 0 where
  pub tool_call_id : String
  pub saw_delta : Bool
  pub is_finished : Bool

pub record DecodeState : Type 0 where
  pub assembler : Assembler
  pub texts : Dict String
  pub reasonings : Dict String
  pub tools : Dict ToolEntry
  pub text_count : ℕ
  pub reasoning_count : ℕ
  pub tool_count : ℕ
  pub finish_reason : Option FinishReason
  pub usage : Option Usage

abbrev pub make_state : DecodeState
make_state = record {
  assembler = [];
  texts = [];
  reasonings = [];
  tools = [];
  text_count = 0;
  reasoning_count = 0;
  tool_count = 0;
  finish_reason = none;
  usage = none;
}

abbrev pub Step : Type 0
Step = List LlmEvent × DecodeState

-- The delta goes to the item's open content, which is started if there is none.
unfoldable pub push_text : String → String → DecodeState → Step
push_text item_id t s = elim (lookup item_id s.texts) [
  | some id ↦ (text_delta id t ∷ [], s)
  | none ↦
      let id = "text-" & decimal (s.text_count + 1) in
      (
        text_start id ∷ text_delta id t ∷ [],
        record s { text_count = s.text_count + 1; texts = insert item_id id s.texts },
      )
]

unfoldable pub push_reasoning : String → String → DecodeState → Step
push_reasoning item_id t s = elim (lookup item_id s.reasonings) [
  | some id ↦ (reasoning_delta id t ∷ [], s)
  | none ↦
      let id = "reasoning-" & decimal (s.reasoning_count + 1) in
      (
        reasoning_start id ∷ reasoning_delta id t ∷ [],
        record s {
          reasoning_count = s.reasoning_count + 1;
          reasonings = insert item_id id s.reasonings;
        },
      )
]

-- `typeof t === "string" && t !== ""`, then the step.
pub when_text : Option String → (String → DecodeState → Step) → DecodeState → Step
when_text none f s = ([], s)
when_text (some t) f s = if str_eq t "" then ([], s) else f t s

pub take_text : WireChunk → DecodeState → Step
take_text c s = when_text c.delta (push_text (or_else c.item_id "output_text")) s

pub take_reasoning : WireChunk → DecodeState → Step
take_reasoning c s = when_text c.delta (push_reasoning (or_else c.item_id "reasoning")) s

pub close_text : String → DecodeState → Step
close_text item_id s = elim (lookup item_id s.texts) [
  | none ↦ ([], s)
  | some id ↦ (text_end id ∷ [], record s { texts = remove item_id s.texts })
]

pub close_reasoning : String → DecodeState → Step
close_reasoning item_id s = elim (lookup item_id s.reasonings) [
  | none ↦ ([], s)
  | some id ↦ (reasoning_end id ∷ [], record s { reasonings = remove item_id s.reasonings })
]

unfoldable pub track_function_call : WireItem → DecodeState → Step
track_function_call item s =
    let n = decimal (s.tool_count + 1) in
    let id = encode_tool_call_id (or_else item.call_id ("call-" & n)) item.id in
    let key = or_else (first_of item.id item.call_id) ("item-" & n) in
    let entry : ToolEntry = record { tool_call_id = id; saw_delta = false; is_finished = false } in
    let (event, assembler) = ToolInput.start id (or_else item.name "") s.assembler in
    (
      event ∷ [],
      record s {
        assembler = assembler;
        tools = insert key entry s.tools;
        tool_count = s.tool_count + 1;
      },
    )

pub track_item : Option WireItem → DecodeState → Step
track_item none s = ([], s)
track_item (some item) s = if is_function_call item then track_function_call item s else ([], s)

-- The entry of the map is the object that the source sets the flags of.
pub append_args : String → ToolEntry → String → DecodeState → Step
append_args key entry t s =
    let (event, assembler) = ToolInput.append entry.tool_call_id t s.assembler in
    (
      event ∷ [],
      record s {
        assembler = assembler;
        tools = insert key (record entry { saw_delta = true }) s.tools;
      },
    )

unfoldable pub take_args : Option String → String → DecodeState → Step
unfolding append_args when_text
take_args delta key s = elim (lookup key s.tools) [
  | none ↦ ([], s)
  | some entry ↦ if entry.is_finished then ([], s) else when_text delta (append_args key entry) s
]

-- Arguments that came with the end only are recorded, and no delta is sent for them.
unfoldable pub with_final : ToolEntry → Option String → Assembler → Assembler
with_final entry none a = a
with_final entry (some t) a =
    if entry.saw_delta || str_eq t "" then a else (ToolInput.append entry.tool_call_id t a).1

pub record_completion : WireChunk → FinishReason → DecodeState → DecodeState
unfolding usage_after
record_completion c reason s = record s {
  finish_reason = some reason;
  usage = usage_after (response_usage c.response) s.usage;
}

-- The loops of `flush`, over the keys that are there at their start.
unfoldable pub close_texts : List String → DecodeState → Step
unfolding close_text
close_texts [] s = ([], s)
close_texts (id ∷ ids) s = and_then (close_text id s) (λ s'. close_texts ids s')

unfoldable pub close_reasonings : List String → DecodeState → Step
unfolding close_reasoning
close_reasonings [] s = ([], s)
close_reasonings (id ∷ ids) s = and_then (close_reasoning id s) (λ s'. close_reasonings ids s')

abbrev pub keys {ℓ} : {V : Type ℓ} → Dict V → List String
keys m = map (λ e. e.0) m

unfoldable pub close_all : DecodeState → Step
unfolding close_texts close_reasonings
close_all s =
    and_then (close_texts (keys s.texts) s) (λ s'. close_reasonings (keys s'.reasonings) s')

pub with_assembler : DecodeState → Fallible (List LlmEvent) × Assembler → Fallible Step
with_assembler s (fails x, a) = fails x
with_assembler s (yields es, a) = yields (es, record s { assembler = a })

module _ (parse : String → Option String) where
  unfoldable pub finish_function_call :
      String → ToolEntry → Option String → DecodeState → Fallible Step
  unfolding with_assembler
  finish_function_call key entry final_arguments s =
      if entry.is_finished
      then yields ([], s)
      else with_assembler
          (record s { tools = insert key (record entry { is_finished = true }) s.tools })
          (ToolInput.finish parse entry.tool_call_id (with_final entry final_arguments s.assembler))

  unfoldable pub finish_found : Option String → String → DecodeState → Fallible Step
  unfolding finish_function_call
  finish_found final_arguments key s = elim (lookup key s.tools) [
    | none ↦ yields ([], s)
    | some entry ↦ finish_function_call key entry final_arguments s
  ]

  unfoldable pub item_done : WireChunk → DecodeState → Fallible Step
  unfolding finish_found close_text close_reasoning
  item_done c s =
      let id = or_else (first_of (item_id_of c.item) c.item_id) "" in
      if is_call c.item
      then finish_found none id s
      else yields (and_then (close_text id s) (λ s'. close_reasoning id s'))

  pub flushed : DecodeState → List LlmEvent → Fallible (List LlmEvent) → Fallible (List LlmEvent)
  flushed s closed (fails x) = fails x
  flushed s closed (yields es) = yields (
      closed
      ++ es
      ++ finished (record { reason = or_else s.finish_reason unknown; usage = s.usage }) ∷ [])

  unfoldable pub flush : DecodeState → Fallible (List LlmEvent)
  unfolding flushed
  flush s =
      let (closed, s') = close_all s in
      flushed s' closed (ToolInput.finish_all parse s'.assembler).0

  module _ (to_lower : String → String) where
    unfoldable pub handle_chunk : WireChunk → DecodeState → Fallible Step
    unfolding take_text take_reasoning close_text close_reasoning track_item record_completion
    handle_chunk c s =
        let kind = or_else c.chunk_type "" in
        let response_failure = first_of (response_error c.response) c.error in
        let error = or_else c.error (record { code = c.code; message = c.message }) in
        if is_reasoning_delta kind
        then yields (take_reasoning c s)
        else if is_reasoning_done kind
        then yields (close_reasoning (or_else c.item_id "reasoning") s)
        else if str_eq kind "response.output_text.delta"
        then yields (take_text c s)
        else if str_eq kind "response.output_text.done"
        then yields (close_text (or_else c.item_id "output_text") s)
        else if str_eq kind "response.output_item.added"
        then yields (track_item c.item s)
        else if str_eq kind "response.function_call_arguments.delta"
        then yields (take_args c.delta (or_else c.item_id "") s)
        else if str_eq kind "response.function_call_arguments.done"
        then finish_found c.arguments (or_else c.item_id "") s
        else if str_eq kind "response.output_item.done"
        then item_done c s
        else if str_eq kind "response.completed" || str_eq kind "response.done"
        then yields ([], record_completion c (completed_reason c.response) s)
        else if str_eq kind "response.incomplete"
        then yields ([], record_completion c (incomplete_reason c.response) s)
        else if str_eq kind "response.failed"
        then fails (fatal_error to_lower response_failure)
        else if str_eq kind "error"
        then fails (fatal_error to_lower (some error))
        else yields ([], s)

    unfoldable pub decode : List WireChunk → Streamed LlmEvent
    unfolding decode_with
    decode cs = decode_with handle_chunk flush cs make_state
