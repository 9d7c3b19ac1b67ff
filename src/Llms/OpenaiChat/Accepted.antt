-- ===== src/Llms/OpenaiChat/Accepted.antt =====
-- Every stream that is decoded to its end passes the checks of the turn's event order.
use swain.Common.{
  Option, first_of, or_else, String, Option, none, some, List, ◌++◌, ◌≡◌, refl, inl, inr,
  Option-cases,
}
use swain.Llms.Turn.{unknown, Finish, Turn, Summary, fine, from_events}
use swain.Llms.Turn.Progress.{Accepts-append}
use swain.Llms.Stream.{and_then}
use swain.Llms.Stream.Accepted.{
  Follows, FollowsIfAny, Follows-and_then, Concludes, decode_with-accepted,
}
use swain.Llms.ToolInput
use swain.Llms.ToolInput.{start, append, Assembler}
use swain.Llms.ToolInput.Accepted.{
  Fallible-cases, finish_all-Accepts, finish_all-Accepts, Fallible-cases,
}
use swain.Llms.OpenaiChat.{
  WireChunk, WireDelta, WireChoice, WireUsage, WireToolCallFragment, DecodeState, make_state,
  close_text, close_reasoning, when_text, reasoning_step, text_step, take_fragments, tool_step,
  take_delta, delta_of, apply_usage, apply_finish, take_choice, handle_chunk, flushed, flush,
  decode,
}
use swain.Llms.OpenaiChat.Contents.{
  Agrees, nothing-Follows, close_text-Follows, close_reasoning-Follows, when_text-Follows,
  reasoning_step-Follows, text_step-Follows,
}
use swain.Llms.OpenaiChat.Calls.{take_fragments-Follows}

closed-Follows :
    (s : DecodeState) (t : Turn)
    → Agrees s t
    → Follows Agrees t (and_then (close_text s) (λ r. close_reasoning r))
closed-Follows s t k =
    Follows-and_then Agrees Agrees (close_text s) (λ r. close_reasoning r) t
      (close_text-Follows s t k) (λ r u h. close_reasoning-Follows r u h)

tool_step-Follows :
    (o : Option (List WireToolCallFragment)) (s : DecodeState) (t : Turn)
    → Agrees s t
    → Follows Agrees t (tool_step o s)
unfolding tool_step
tool_step-Follows none s t k = nothing-Follows s t k
tool_step-Follows (some fs) s t k =
    Follows-and_then Agrees Agrees (and_then (close_text s) (λ r. close_reasoning r))
      (λ r. take_fragments fs r) t (closed-Follows s t k) (λ r u h. take_fragments-Follows fs r u h)

take_delta-Follows :
    (d : WireDelta) (s : DecodeState) (t : Turn) → Agrees s t → Follows Agrees t (take_delta d s)
unfolding take_delta
take_delta-Follows d s t k =
    let reasoning = first_of d.reasoning_content d.reasoning in
    let reasoned = when_text reasoning reasoning_step s in
    let first =
      when_text-Follows reasoning reasoning_step s t (λ x r u h. reasoning_step-Follows x r u h)
        k in
    let second =
      Follows-and_then Agrees Agrees reasoned (λ r. when_text d.content text_step r) t first
        (λ r u h.
          when_text-Follows d.content text_step r u (λ x r' u' h'. text_step-Follows x r' u' h')
            h) in
    Follows-and_then Agrees Agrees (and_then reasoned (λ r. when_text d.content text_step r))
      (λ r. tool_step d.tool_calls r) t second (λ r u h. tool_step-Follows d.tool_calls r u h)

apply_usage-Agrees :
    (o : Option WireUsage) (s : DecodeState) (t : Turn) → Agrees s t → Agrees (apply_usage o s) t
unfolding apply_usage
apply_usage-Agrees none s t k = k
apply_usage-Agrees (some u) s t k = k

apply_finish-Agrees :
    (o : Option WireChoice) (s : DecodeState) (t : Turn) → Agrees s t → Agrees (apply_finish o s) t
unfolding apply_finish
apply_finish-Agrees none s t k = k
apply_finish-Agrees (some c) s t k = elim (Option-cases c.finish_reason) [
  | inl e ↦ rw (apply_finish, e) k
  | inr (r, e) ↦ rw (apply_finish, e) k
]

take_choice-Follows :
    (o : Option WireDelta) (s : DecodeState) (t : Turn)
    → Agrees s t
    → Follows Agrees t (take_choice o s)
unfolding take_choice
take_choice-Follows none s t k = nothing-Follows s t k
take_choice-Follows (some d) s t k = take_delta-Follows d s t k

handle_chunk-Follows :
    (c : WireChunk) (s : DecodeState) (t : Turn)
    → Agrees s t
    → FollowsIfAny Agrees t (handle_chunk c s)
unfolding handle_chunk
handle_chunk-Follows c s t k = elim (Option-cases c.error) [
  | inl e ↦
      let used = apply_usage c.usage s in
      let (u, passed, g, k') =
        take_choice-Follows (delta_of c.choice) used t (apply_usage-Agrees c.usage s t k) in
      let s' = (take_choice (delta_of c.choice) used).1 in
      rw (handle_chunk, e) (u, passed, g, apply_finish-Agrees c.choice s' u k')
  | inr (m, e) ↦ rw (handle_chunk, e) tt
]

module _ (parse : String → Option String) where
  flush-Concludes : (s : DecodeState) (t : Turn) → Agrees s t → Concludes t (flush parse s)
  unfolding flush flushed
  flush-Concludes s t k =
      let closed = and_then (close_text s) (λ r. close_reasoning r) in
      let s' = closed.1 in
      let (u, passed, g, k') = closed-Follows s t k in
      elim (Fallible-cases (ToolInput.finish_all parse s'.assembler).0) [
        | inl (x, bad) ↦ rw (flush, bad) tt
        | inr (es, good) ↦
            let f : Finish = record {
              reason = or_else s'.finish_reason unknown;
              usage = s'.usage;
            } in
            let tools = finish_all-Accepts parse s'.assembler u es k'.ends k'.calls good in
            rw (flush, good)
              (closed.0 ++ es, f, refl, Accepts-append closed.0 es t u passed g tools)
      ]

  -- A stream of chunks that is decoded without a failure, whatever the chunks are, gives events that
  -- `fromEvents` accepts.
  pub decode-is_accepted :
      (cs : List WireChunk)
      → (decode parse cs).failure ≡ none
      → (out : Summary) × (from_events (decode parse cs).events ≡ fine out)
  unfolding decode
  decode-is_accepted cs h =
      decode_with-accepted Agrees handle_chunk (flush parse)
        (λ c s t k. handle_chunk-Follows c s t k) (λ s t k. flush-Concludes s t k) cs make_state
        (record { ends = refl; texts = tt; reasonings = tt; tools = tt; calls = tt }) h
