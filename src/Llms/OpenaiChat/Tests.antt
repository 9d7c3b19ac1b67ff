-- ===== src/Llms/OpenaiChat/Tests.antt =====
-- A stream with reasoning, a text and a tool call.
use swain.Common.{
  find_at, values, lookup, insert, String, Option, some, none, List, [], ◌∷◌, ◌≡◌, refl,
}
use swain.Llms.Turn.{
  Summary, fine, from_events, reasoning_start, reasoning_delta, reasoning_end, text_start,
  text_delta, text_end, tool_input_start, tool_input_delta, tool_input_end, call, finished,
  tool_call_reason,
}
use swain.Llms.Messages.{decimal}
use swain.Llms.ToolInput.{start, append, finish_all, finish_entry}
use swain.Llms.OpenaiChat.{
  WireChunk, WireDelta, decode, take_delta, push_reasoning, push_text, take_fragments,
  take_fragment, lower_finish_reason,
}
use swain.Llms.OpenaiChat.Accepted.{decode-is_accepted}

abbrev chunk : WireDelta → Option String → WireChunk
chunk d reason = record {
  choice = some (record { delta = some d; finish_reason = reason });
  usage = none;
  error = none;
}

abbrev no_delta : WireDelta
no_delta = record { content = none; reasoning_content = none; reasoning = none; tool_calls = none }

abbrev stream : List WireChunk
stream =
    chunk (record no_delta { reasoning = some "so" }) none
    ∷ chunk (record no_delta { content = some "hi" }) none
    ∷ chunk
        (record no_delta {
          tool_calls = some (
              record { index = none; id = some "t"; name = some "Read"; arguments = some "{}" }
              ∷ []);
        })
        (some "tool_calls")
    ∷ []

decode_stream :
    (decode (λ s. some s) stream).events
    ≡ reasoning_start "reasoning-1"
      ∷ reasoning_delta "reasoning-1" "so"
      ∷ reasoning_end "reasoning-1"
      ∷ text_start "text-1"
      ∷ text_delta "text-1" "hi"
      ∷ text_end "text-1"
      ∷ tool_input_start "t" "Read"
      ∷ tool_input_delta "t" "{}"
      ∷ tool_input_end "t" "Read"
      ∷ call (record { tool_call_id = "t"; name = "Read"; input = some "{}" })
      ∷ finished (record { reason = tool_call_reason; usage = none })
      ∷ []
unfolding decode take_delta push_reasoning decimal push_text take_fragments take_fragment find_at
    start append finish_all values lookup insert finish_entry lower_finish_reason
decode_stream = refl

decode-is_accepted_example :
    (out : Summary) × (from_events (decode (λ s. some s) stream).events ≡ fine out)
unfolding decode finish_all values take_delta take_fragments take_fragment find_at push_text
    push_reasoning append lookup start insert finish_entry
decode-is_accepted_example = decode-is_accepted (λ s. some s) stream refl
