-- ===== src/Llms/Turn/Tests.antt =====
-- Runs of `fromEvents`, and instances of its theorems.
use swain.Common.{none, List, [], ◌∷◌, ◌≡◌, refl, map, values, lookup, insert}
use swain.Llms.Messages.{ToolCall, AssistantContent, tool_call}
use swain.Llms.Turn.{
  LlmEvent, text_start, text_delta, tool_input_start, tool_input_end, call, finished, stop, Summary,
  fine, invalid, from_events, has,
}
use swain.Llms.Turn.Order.{EndsWith, texts, from_events_sound}
use swain.Llms.Turn.Calls.{call_ids, from_events-call_ids}

abbrev read_call : ToolCall
read_call = record { tool_call_id = "c1"; name = "Read"; input = none }

abbrev stream : List LlmEvent
stream =
    text_start "t"
    ∷ text_delta "t" "he"
    ∷ text_delta "t" "llo"
    ∷ tool_input_start "c1" "Read"
    ∷ tool_input_start "c2" "Edit"
    ∷ tool_input_end "c1" "Read"
    ∷ call read_call
    ∷ finished (record { reason = stop; usage = none })
    ∷ []

abbrev summary : Summary
summary = record {
  finish = record { reason = stop; usage = none };
  usage = none;
  text = "hello";
  reasoning = "";
  tool_calls = read_call ∷ [];
  assistant_content = AssistantContent.text "hello" ∷ tool_call read_call ∷ [];
  provider_errors = [];
}

from_events-stream : from_events stream ≡ fine summary
unfolding from_events values lookup insert
from_events-stream = refl

from_events_unstarted :
    from_events (text_delta "t" "x" ∷ []) ≡ invalid "text-delta before text-start"
unfolding from_events
from_events_unstarted = refl

from_events_sound_example :
    EndsWith summary.finish stream
    × (summary.usage ≡ summary.finish.usage)
    × (summary.text ≡ texts stream)
from_events_sound_example = from_events_sound stream summary from_events-stream

from_events-call_ids_example :
    has (call_ids summary.assistant_content) "c2"
    ≡ has (map (λ c. c.tool_call_id) summary.tool_calls) "c2"
from_events-call_ids_example = from_events-call_ids stream summary "c2" from_events-stream
