-- ===== src/Llms/Codex/Tests.antt =====
-- A stream with a text and a tool call, of which the arguments come with the end, and errors.
use swain.Common.{
  some, none, List, [], ◌∷◌, ◌≡◌, refl, String, lookup, insert, remove, values, includes,
  starts_with,
}
use swain.Llms.Turn.{
  Summary, fine, from_events, text_start, text_delta, text_end, tool_input_start, tool_input_end,
  call, finished, tool_call_reason,
}
use swain.Llms.Messages.{decimal}
use swain.Llms.Client.{rate_limited}
use swain.Llms.ToolInput.{start, append, finish, finish_all, finish_entry, parse_args}
use swain.Llms.Codex.{
  decode, handle_chunk, push_text, when_text, track_function_call, with_final, finish_found,
  item_done, finish_function_call, close_all, close_texts, close_reasonings, flush,
}
use swain.Llms.Codex.Wire.{
  WireChunk, WireItem, WireResponse, is_reasoning_delta, is_reasoning_done, encode_tool_call_id,
  completed_reason, fatal_error,
}
use swain.Llms.Codex.Accepted.{decode-passes_checks}

abbrev chunk : String → WireChunk
chunk kind = record {
  chunk_type = some kind;
  item_id = some "i";
  delta = none;
  arguments = none;
  item = none;
  code = none;
  message = none;
  error = none;
  response = none;
}

abbrev item : WireItem
item = record {
  item_type = some "function_call";
  id = some "i";
  call_id = some "c";
  name = some "Read";
}

abbrev response : WireResponse
response = record {
  output = some (item ∷ []);
  usage = none;
  incomplete_reason = none;
  error = none;
}

abbrev stream : List WireChunk
stream =
    record (chunk "response.output_text.delta") { delta = some "hi" }
    ∷ record (chunk "response.output_item.added") { item = some item }
    ∷ record (chunk "response.function_call_arguments.done") { arguments = some "{}" }
    ∷ record (chunk "response.output_item.done") { item = some item }
    ∷ record (chunk "response.completed") { response = some response }
    ∷ []

decode_stream :
    (decode (λ s. some s) (λ s. s) stream).events
    ≡ text_start "text-1"
      ∷ text_delta "text-1" "hi"
      ∷ tool_input_start "c|i" "Read"
      ∷ tool_input_end "c|i" "Read"
      ∷ call (record { tool_call_id = "c|i"; name = "Read"; input = some "{}" })
      ∷ text_end "text-1"
      ∷ finished (record { reason = tool_call_reason; usage = none })
      ∷ []
unfolding decode handle_chunk is_reasoning_delta is_reasoning_done push_text track_function_call
    encode_tool_call_id with_final finish_found item_done finish_function_call completed_reason
    close_all close_texts close_reasonings flush start append finish finish_all finish_entry
    parse_args lookup insert remove values decimal when_text
decode_stream = refl

quota :
    (fatal_error (λ s. s) (some (record { code = some "quota"; message = none }))).reason
    ≡ rate_limited
unfolding fatal_error includes starts_with
quota = refl

decode-passes_checks_example :
    (out : Summary) × (from_events (decode (λ s. some s) (λ s. s) stream).events ≡ fine out)
unfolding decode handle_chunk is_reasoning_delta is_reasoning_done push_text track_function_call
    encode_tool_call_id with_final finish_found item_done finish_function_call completed_reason
    close_all close_texts close_reasonings flush start append finish finish_all finish_entry
    parse_args lookup insert remove values decimal when_text
decode-passes_checks_example = decode-passes_checks (λ s. some s) (λ s. s) stream refl
