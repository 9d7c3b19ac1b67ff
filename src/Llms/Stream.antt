-- ===== src/Llms/Stream.antt =====
-- `decode` of packages/llms/src/protocols: the same pipeline in every protocol, over its own
-- `handleChunk` and `flush`. A failure ends the stream.
pub mod Accepted
use swain.Common.{Option, none, some, List, [], ◌∷◌, ◌++◌}
use swain.Llms.Client.{LlmError, Fallible, yields, fails}

-- Events that a stream gives before it ends, and the error that it ends with if it fails.
pub record Streamed {ℓ} (A : Type ℓ) : Type ℓ where
  pub events : List A
  pub failure : Option LlmError

module _ {ℓ κ} {State : Type ℓ} {Event : Type κ} where
  chunk_then : Fallible (List Event × State) → (State → Streamed Event) → Streamed Event
  chunk_then (fails x) rest = record { events = []; failure = some x }
  chunk_then (yields (es, s)) rest = record {
    events = es ++ (rest s).events;
    failure = (rest s).failure;
  }

last_events {ℓ} : {Event : Type ℓ} → Fallible (List Event) → Streamed Event
last_events (fails x) = record { events = []; failure = some x }
last_events (yields es) = record { events = es; failure = none }

-- The events of the chunks, then those of the flush.
unfoldable pub decode_with {ℓ κ μ} :
    {State : Type ℓ} {Chunk : Type κ} {Event : Type μ}
    → (Chunk → State → Fallible (List Event × State))
    → (State → Fallible (List Event))
    → List Chunk
    → State
    → Streamed Event
unfolding chunk_then last_events
decode_with handle flush [] s = last_events (flush s)
decode_with handle flush (c ∷ cs) s = chunk_then (handle c s) (λ s'. decode_with handle flush cs s')

-- The events that a step pushes behind those that are there.
abbrev pub and_then {ℓ κ} :
    {State : Type ℓ} {Event : Type κ}
    → List Event × State
    → (State → List Event × State)
    → List Event × State
and_then (es, s) f = let (fs, s') = f s in (es ++ fs, s')
