-- ===== src/Llms/Anthropic/Tests.antt =====
-- A stream with a text and a tool call.
use swain.Common.{
  find_at, put_at, remove_at, values, lookup, insert, entries_at, ℕ, String, Option, some, none,
  List, [], ◌∷◌, ◌≡◌, refl,
}
use swain.Llms.Turn.{
  Summary, fine, from_events, text_start, text_delta, text_end, tool_input_start, tool_input_delta,
  tool_input_end, call, finished, tool_call_reason,
}
use swain.Llms.Messages.{decimal}
use swain.Llms.ToolInput.{start, append, finish_all, finish_entry}
use swain.Llms.Anthropic.{WireChunk, WireDelta, decode, lower_stop_reason}
use swain.Llms.Anthropic.Accepted.{decode-accepted}

abbrev chunk : String → ℕ → WireChunk
chunk t i = record {
  chunk_type = some t;
  index = some i;
  message_usage = none;
  content_block = none;
  delta = none;
  usage = none;
  error = none;
}

abbrev delta : String → Option String → Option String → Option String → Option WireDelta
delta t text json reason = some (record {
  delta_type = some t;
  text = text;
  thinking = none;
  partial_json = json;
  stop_reason = reason;
})

abbrev stream : List WireChunk
stream =
    record (chunk "content_block_start" 0) {
      content_block = some (record { block_type = some "text"; id = none; name = none });
    }
    ∷ record (chunk "content_block_delta" 0) { delta = delta "text_delta" (some "hi") none none }
    ∷ chunk "content_block_stop" 0
    ∷ record (chunk "content_block_start" 1) {
      content_block =
          some (record { block_type = some "tool_use"; id = some "t"; name = some "Read" });
    }
    ∷ record (chunk "content_block_delta" 1) {
      delta = delta "input_json_delta" none (some "{}") none;
    }
    ∷ chunk "content_block_stop" 1
    ∷ record (chunk "message_delta" 0) { delta = delta "" none none (some "tool_use") }
    ∷ []

decode_stream :
    (decode (λ s. some s) (λ s. s) stream).events
    ≡ text_start "text-1"
      ∷ text_delta "text-1" "hi"
      ∷ text_end "text-1"
      ∷ tool_input_start "t" "Read"
      ∷ tool_input_delta "t" "{}"
      ∷ tool_input_end "t" "Read"
      ∷ call (record { tool_call_id = "t"; name = "Read"; input = some "{}" })
      ∷ finished (record { reason = tool_call_reason; usage = none })
      ∷ []
unfolding decode decimal find_at put_at start remove_at append finish_all values lookup insert
    finish_entry entries_at lower_stop_reason
decode_stream = refl

decode-accepted_example :
    (out : Summary) × (from_events (decode (λ s. some s) (λ s. s) stream).events ≡ fine out)
unfolding decode find_at put_at remove_at finish_all values append lookup start insert finish_entry
decode-accepted_example = decode-accepted (λ s. some s) (λ s. s) stream refl
