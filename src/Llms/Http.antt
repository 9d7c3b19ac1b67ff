-- ===== src/Llms/Http.antt =====
-- packages/llms/src/transport/http.ts: how a response of the provider becomes events or an error.
--
-- `to_lower` is `toLowerCase`, `parse` is `JSON.parse` as in ToolInput.
use swain.Common.{
  ℕ, String, Bool, true, false, ◌||◌, Option, none, some, List, [], ◌∷◌, ◌++◌, if◌then◌else◌,
  str_eq, any, nat_eq, leb, take_units, includes,
}
use swain.Llms.Messages.{◌&◌, decimal}
use swain.Llms.Sse.{SseEvent, Decoder, make_decoder, feed, is_done}
use swain.Llms.Stream.{Streamed}
use swain.Llms.Client.{
  Fallible, yields, fails, LlmError, rate_limited, overloaded, context_length_exceeded, auth_failed,
  invalid_request, server_error, invalid_provider_output,
}

pub record SseJsonEvent : Type 0 where
  pub event : Option String
  pub json : String

abbrev pub context_overflow_patterns : List String
context_overflow_patterns =
    "context length" ∷ "context_length" ∷ "context window" ∷ "context_window" ∷ "prompt is too long"
    ∷ "maximum context" ∷ "too many tokens" ∷ "reduce the length" ∷ "input is too long"
    ∷ "maximum number of tokens" ∷ []

pub record Response : Type 0 where
  pub status : ℕ
  pub body : String

module _ (to_lower : String → String) where
  unfoldable pub is_context_overflow : String → Bool
  unfolding includes
  is_context_overflow text =
      let lower = to_lower text in any (λ pattern. includes pattern lower) context_overflow_patterns

  detail : String → String
  detail body = if str_eq body "" then "" else ": " & take_units 500 body

  unfoldable pub status_to_error : Response → LlmError
  unfolding is_context_overflow detail
  status_to_error r =
      let message = "provider returned status " & decimal r.status & detail r.body in
      if nat_eq r.status 429
      then record { reason = rate_limited; message = message; retryable = true }
      else if nat_eq r.status 529
      then record { reason = overloaded; message = message; retryable = true }
      else if nat_eq r.status 401 || nat_eq r.status 403
      then record { reason = auth_failed; message = message; retryable = false }
      else if leb 500 r.status
      then record { reason = server_error; message = message; retryable = true }
      else if is_context_overflow r.body
      then record { reason = context_length_exceeded; message = message; retryable = false }
      else record { reason = invalid_request; message = message; retryable = false }

module _ (parse : String → Option String) where
  parsed_event : SseEvent → Option String → Fallible SseJsonEvent
  parsed_event e (some json) = yields (record { event = e.event; json = json })
  parsed_event e none = fails (record {
    reason = invalid_provider_output;
    message = "provider sent malformed SSE JSON: " & take_units 200 e.data_text;
    retryable = false;
  })

  unfoldable pub parse_sse_json : SseEvent → Fallible SseJsonEvent
  unfolding parsed_event
  parse_sse_json e = parsed_event e (parse e.data_text)

  -- `takeWhile` up to the sentinel, then `mapEffect`.
  pub parsed_events : List SseEvent → Streamed SseJsonEvent
  unfolding is_done
  parsed_events [] = record { events = []; failure = none }
  parsed_events (e ∷ es) =
      let rest = parsed_events es in
      if is_done e then record { events = []; failure = none } else elim (parse_sse_json e) [
        | fails x ↦ record { events = []; failure = some x }
        | yields j ↦ record rest { events = j ∷ rest.events }
      ]

  -- The chunks of the body fed to one decoder.
  pub decode_sse : List String → Decoder → List SseEvent
  decode_sse [] d = []
  decode_sse (chunk ∷ chunks) d = let (es, d') = feed chunk d in es ++ decode_sse chunks d'

  -- `streamSseJson` on the response that the client gives, whose body arrives in chunks.
  unfoldable pub stream_sse_json :
      (String → String) → ℕ → List String → String → Streamed SseJsonEvent
  unfolding status_to_error parsed_events decode_sse
  stream_sse_json to_lower status chunks body =
      if leb 400 status
      then record {
        events = [];
        failure = some (status_to_error to_lower (record { status = status; body = body }));
      }
      else parsed_events (decode_sse chunks make_decoder)
