-- ===== src/Llms/Turn.antt =====
-- packages/llms/src/schema/events.ts: the events of a model's turn, and `LLMTurnSummary.fromEvents`,
-- which checks their order and assembles the assistant's content. Of a refusal the model keeps the
-- message, and not the events that came before it. The sets of the ids that were
-- started are lists, the buffers and the tool calls are maps.
pub mod Order
pub mod Calls
pub mod Progress
pub mod Steps
mod Tests
use swain.Common.{
  String, Bool, true, false, Option, none, some, List, [], ◌∷◌, ◌++◌, if◌then◌else◌, str_eq, any,
  Dict, lookup, insert, values,
}
use swain.Llms.Messages.{Usage, ToolCall, AssistantContent, tool_call, ◌&◌}

pub data FinishReason : Type 0 where
  stop length tool_call_reason content_filter refusal unknown : FinishReason

pub record ProviderError : Type 0 where
  pub message : String
  pub code : Option String

pub record Finish : Type 0 where
  pub reason : FinishReason
  pub usage : Option Usage

pub data LlmEvent : Type 0 where
  text_start : (content_id : String) → LlmEvent
  text_delta : (content_id delta : String) → LlmEvent
  text_end : (content_id : String) → LlmEvent
  reasoning_start : (content_id : String) → LlmEvent
  reasoning_delta : (content_id delta : String) → LlmEvent
  reasoning_end : (content_id : String) → LlmEvent
  tool_input_start : (tool_call_id name : String) → LlmEvent
  tool_input_delta : (tool_call_id delta : String) → LlmEvent
  tool_input_end : (tool_call_id name : String) → LlmEvent
  call : ToolCall → LlmEvent
  provider_error : ProviderError → LlmEvent
  finished : Finish → LlmEvent

pub data Entry : Type 0 where
  text_entry : String → Entry
  reasoning_entry : String → Entry
  tool_entry : String → Entry

-- The variables of `fromEvents`.
pub record Turn : Type 0 where
  pub text_started : List String
  pub reasoning_started : List String
  pub tool_started : List String
  pub tool_ended : List String
  pub text_buffers : Dict String
  pub reasoning_buffers : Dict String
  pub content_order : List Entry
  pub calls : Dict ToolCall
  pub provider_errors : List ProviderError
  pub finish : Option Finish
  pub text : String
  pub reasoning : String

pub record Summary : Type 0 where
  pub finish : Finish
  pub usage : Option Usage
  pub text : String
  pub reasoning : String
  pub tool_calls : List ToolCall
  pub assistant_content : List AssistantContent
  pub provider_errors : List ProviderError

-- A result, or the message of an `invalid-provider-output` error.
pub data Checked {ℓ} (A : Type ℓ) : Type ℓ where
  fine : A → Checked A
  invalid : (message : String) → Checked A

abbrev pub empty_turn : Turn
empty_turn = record {
  text_started = [];
  reasoning_started = [];
  tool_started = [];
  tool_ended = [];
  text_buffers = [];
  reasoning_buffers = [];
  content_order = [];
  calls = [];
  provider_errors = [];
  finish = none;
  text = "";
  reasoning = "";
}

abbrev pub has : List String → String → Bool
has ids id = any (λ i. str_eq i id) ids

abbrev pub buffered : String → Dict String → String
buffered id m = elim (lookup id m) [ none ↦ "" | some t ↦ t ]

-- One round of the loop's `switch`.
pub accept : LlmEvent → Turn → Checked Turn
accept (text_start id) t = fine (record t {
  text_started = id ∷ t.text_started;
  text_buffers = insert id "" t.text_buffers;
  content_order = t.content_order ++ text_entry id ∷ [];
})
accept (text_delta id s) t =
    if has t.text_started id
    then fine (record t {
      text = t.text & s;
      text_buffers = insert id (buffered id t.text_buffers & s) t.text_buffers;
    })
    else invalid "text-delta before text-start"
accept (text_end id) t =
    if has t.text_started id then fine t else invalid "text-end before text-start"
accept (reasoning_start id) t = fine (record t {
  reasoning_started = id ∷ t.reasoning_started;
  reasoning_buffers = insert id "" t.reasoning_buffers;
  content_order = t.content_order ++ reasoning_entry id ∷ [];
})
accept (reasoning_delta id s) t =
    if has t.reasoning_started id
    then fine (record t {
      reasoning = t.reasoning & s;
      reasoning_buffers = insert id (buffered id t.reasoning_buffers & s) t.reasoning_buffers;
    })
    else invalid "reasoning-delta before reasoning-start"
accept (reasoning_end id) t =
    if has t.reasoning_started id then fine t else invalid "reasoning-end before reasoning-start"
accept (tool_input_start id name) t = fine (record t {
  tool_started = id ∷ t.tool_started;
  content_order = t.content_order ++ tool_entry id ∷ [];
})
accept (tool_input_delta id s) t =
    if has t.tool_started id then fine t else invalid "tool-input-delta before tool-input-start"
accept (tool_input_end id name) t =
    if has t.tool_started id
    then fine (record t { tool_ended = id ∷ t.tool_ended })
    else invalid "tool-input-end before tool-input-start"
accept (call c) t =
    if has t.tool_ended c.tool_call_id
    then fine (record t { calls = insert c.tool_call_id c t.calls })
    else invalid "tool-call before tool-input-end"
accept (provider_error m) t = fine (record t { provider_errors = t.provider_errors ++ m ∷ [] })
accept (finished f) t = fine (record t { finish = some f })

-- The guard at the head of each round, then the round.
pub round : LlmEvent → Turn → Checked Turn
unfolding accept
round e t = elim t.finish [ some _ ↦ invalid "finish must be the final event" | none ↦ accept e t ]

pub consume : List LlmEvent → Turn → Checked Turn
unfolding round
consume [] t = fine t
consume (e ∷ es) t = elim (round e t) [ invalid m ↦ invalid m | fine t' ↦ consume es t' ]

-- The loop over `contentOrder`. A tool without a call leaves nothing.
pub content_of : Turn → List Entry → List AssistantContent
content_of t [] = []
content_of t (text_entry id ∷ es) =
    AssistantContent.text (buffered id t.text_buffers) ∷ content_of t es
content_of t (reasoning_entry id ∷ es) =
    AssistantContent.reasoning (buffered id t.reasoning_buffers) ∷ content_of t es
content_of t (tool_entry id ∷ es) = elim (lookup id t.calls) [
  | none ↦ content_of t es
  | some c ↦ tool_call c ∷ content_of t es
]

pub summarize : Turn → Finish → Summary
unfolding content_of
summarize t f = record {
  finish = f;
  usage = f.usage;
  text = t.text;
  reasoning = t.reasoning;
  tool_calls = values t.calls;
  assistant_content = content_of t t.content_order;
  provider_errors = t.provider_errors;
}

pub conclude : Checked Turn → Checked Summary
unfolding summarize
conclude (invalid m) = invalid m
conclude (fine t) = elim t.finish [
  | none ↦ invalid "missing finish event"
  | some f ↦ fine (summarize t f)
]

unfoldable pub from_events : List LlmEvent → Checked Summary
unfolding consume conclude
from_events es = conclude (consume es empty_turn)
