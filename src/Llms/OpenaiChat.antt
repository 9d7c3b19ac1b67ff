-- ===== src/Llms/OpenaiChat.antt =====
-- packages/llms/src/protocols/openai-chat.ts: the decoder of a streamed turn.
--
-- A chunk is the JSON value under its cast: a field that is missing, or that a `typeof` test refuses,
-- is none, and so is a null that `??` passes over. A null delta or a null list of tool calls, at which
-- the source throws, is left out.
pub mod Contents
pub mod Calls
pub mod Accepted
mod Tests
use swain.Common.{
  ℕ, ◌+◌, String, Bool, true, false, not, ◌||◌, Option, none, some, List, [], ◌∷◌, ◌++◌,
  if◌then◌else◌, str_eq, Indexed, find_at, put_at, or_else, first_of,
}
use swain.Llms.Messages.{◌&◌, decimal, Usage}
use swain.Llms.Turn.{
  LlmEvent, text_start, text_delta, text_end, reasoning_start, reasoning_delta, reasoning_end,
  finished, FinishReason, stop, length, tool_call_reason, content_filter, unknown,
}
use swain.Llms.Client.{LlmError, Fallible, yields, fails, server_error}
use swain.Llms.ToolInput
use swain.Llms.ToolInput.{Assembler}
use swain.Llms.Stream.{Streamed, decode_with, and_then}

pub record WireToolCallFragment : Type 0 where
  pub index : Option ℕ
  pub id : Option String
  pub name : Option String
  pub arguments : Option String

pub record WireDelta : Type 0 where
  pub content : Option String
  pub reasoning_content : Option String
  pub reasoning : Option String
  pub tool_calls : Option (List WireToolCallFragment)

pub record WireChoice : Type 0 where
  pub delta : Option WireDelta
  pub finish_reason : Option String

pub record WireUsage : Type 0 where
  pub prompt_tokens : Option ℕ
  pub completion_tokens : Option ℕ

-- The first choice, which is all that is read, and the message of the error.
pub record WireChunk : Type 0 where
  pub choice : Option WireChoice
  pub usage : Option WireUsage
  pub error : Option (Option String)

pub record DecodeState : Type 0 where
  pub assembler : Assembler
  pub tool_ids_by_index : Indexed String
  pub text_id : Option String
  pub reasoning_id : Option String
  pub text_count : ℕ
  pub reasoning_count : ℕ
  pub finish_reason : Option FinishReason
  pub usage : Option Usage

abbrev pub make_state : DecodeState
make_state = record {
  assembler = [];
  tool_ids_by_index = [];
  text_id = none;
  reasoning_id = none;
  text_count = 0;
  reasoning_count = 0;
  finish_reason = none;
  usage = none;
}

abbrev pub Step : Type 0
Step = List LlmEvent × DecodeState

unfoldable pub lower_finish_reason : String → FinishReason
lower_finish_reason reason =
    if str_eq reason "stop"
    then stop
    else if str_eq reason "length"
    then length
    else if str_eq reason "tool_calls"
    then tool_call_reason
    else if str_eq reason "content_filter"
    then content_filter
    else unknown

pub close_text : DecodeState → Step
close_text s = elim s.text_id [
  | none ↦ ([], s)
  | some id ↦ (text_end id ∷ [], record s { text_id = none })
]

pub close_reasoning : DecodeState → Step
close_reasoning s = elim s.reasoning_id [
  | none ↦ ([], s)
  | some id ↦ (reasoning_end id ∷ [], record s { reasoning_id = none })
]

-- The delta goes to the open content, which is started if there is none.
unfoldable pub push_reasoning : String → DecodeState → Step
push_reasoning t s = elim s.reasoning_id [
  | some id ↦ (reasoning_delta id t ∷ [], s)
  | none ↦
      let id = "reasoning-" & decimal (s.reasoning_count + 1) in
      (
        reasoning_start id ∷ reasoning_delta id t ∷ [],
        record s { reasoning_count = s.reasoning_count + 1; reasoning_id = some id },
      )
]

unfoldable pub push_text : String → DecodeState → Step
push_text t s = elim s.text_id [
  | some id ↦ (text_delta id t ∷ [], s)
  | none ↦
      let id = "text-" & decimal (s.text_count + 1) in
      (
        text_start id ∷ text_delta id t ∷ [],
        record s { text_count = s.text_count + 1; text_id = some id },
      )
]

-- `typeof t === "string" && t !== ""`, then the step.
pub when_text : Option String → (String → DecodeState → Step) → DecodeState → Step
when_text none f s = ([], s)
when_text (some t) f s = if str_eq t "" then ([], s) else f t s

pub reasoning_step : String → DecodeState → Step
reasoning_step t s = and_then (close_text s) (λ s'. push_reasoning t s')

pub text_step : String → DecodeState → Step
text_step t s = and_then (close_reasoning s) (λ s'. push_text t s')

-- The call of a fragment's index, which is started if there is none.
pub open_call : ℕ → WireToolCallFragment → Option String → DecodeState → String × Step
open_call index f (some id) s = (id, ([], s))
open_call index f none s =
    let id = or_else f.id ("call-" & decimal index) in
    let (event, assembler) = ToolInput.start id (or_else f.name "") s.assembler in
    let ids = put_at index id s.tool_ids_by_index in
    (id, (event ∷ [], record s { assembler = assembler; tool_ids_by_index = ids }))

pub append_args : String → String → DecodeState → Step
append_args id t s =
    let (event, assembler) = ToolInput.append id t s.assembler in
    (event ∷ [], record s { assembler = assembler })

unfoldable pub take_fragment : WireToolCallFragment → DecodeState → Step
unfolding open_call append_args when_text
take_fragment f s =
    let index = or_else f.index 0 in
    let (id, opened) = open_call index f (find_at index s.tool_ids_by_index) s in
    and_then opened (λ s'. when_text f.arguments (λ t s''. append_args id t s'') s')

unfoldable pub take_fragments : List WireToolCallFragment → DecodeState → Step
take_fragments [] s = ([], s)
take_fragments (f ∷ fs) s = and_then (take_fragment f s) (λ s'. take_fragments fs s')

pub tool_step : Option (List WireToolCallFragment) → DecodeState → Step
tool_step none s = ([], s)
tool_step (some fs) s =
    and_then (and_then (close_text s) (λ s'. close_reasoning s')) (λ s'. take_fragments fs s')

unfoldable pub take_delta : WireDelta → DecodeState → Step
unfolding when_text reasoning_step text_step tool_step
take_delta d s =
    let reasoned = when_text (first_of d.reasoning_content d.reasoning) reasoning_step s in
    and_then (and_then reasoned (λ s'. when_text d.content text_step s'))
      (λ s'. tool_step d.tool_calls s')

abbrev delta_of : Option WireChoice → Option WireDelta
delta_of none = none
delta_of (some c) = c.delta

pub apply_usage : Option WireUsage → DecodeState → DecodeState
apply_usage none s = s
apply_usage (some u) s =
    let input = or_else u.prompt_tokens 0 in
    let output = or_else u.completion_tokens 0 in
    record s {
      usage = some (record {
        input_tokens = input;
        output_tokens = output;
        active_context_tokens = some (input + output);
      });
    }

pub apply_finish : Option WireChoice → DecodeState → DecodeState
apply_finish none s = s
apply_finish (some c) s = elim c.finish_reason [
  | none ↦ s
  | some reason ↦ record s { finish_reason = some (lower_finish_reason reason) }
]

pub take_choice : Option WireDelta → DecodeState → Step
take_choice none s = ([], s)
take_choice (some d) s = take_delta d s

unfoldable pub handle_chunk : WireChunk → DecodeState → Fallible Step
unfolding apply_usage apply_finish take_choice
handle_chunk c s = elim c.error [
  | some message ↦ fails (record {
    reason = server_error;
    message = or_else message "provider stream error";
    retryable = false;
  })
  | none ↦
      let (events, s') = take_choice (delta_of c.choice) (apply_usage c.usage s) in
      yields (events, apply_finish c.choice s')
]

module _ (parse : String → Option String) where
  flushed : DecodeState → List LlmEvent → Fallible (List LlmEvent) → Fallible (List LlmEvent)
  flushed s closed (fails x) = fails x
  flushed s closed (yields es) = yields (
      closed
      ++ es
      ++ finished (record { reason = or_else s.finish_reason unknown; usage = s.usage }) ∷ [])

  unfoldable pub flush : DecodeState → Fallible (List LlmEvent)
  unfolding flushed close_text close_reasoning
  flush s =
      let (closed, s') = and_then (close_text s) (λ s'. close_reasoning s') in
      flushed s' closed (ToolInput.finish_all parse s'.assembler).0

  unfoldable pub decode : List WireChunk → Streamed LlmEvent
  unfolding handle_chunk flush decode_with
  decode cs = decode_with handle_chunk flush cs make_state
