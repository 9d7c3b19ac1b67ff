-- ===== src/Llms/Codex/Accepted.antt =====
-- Every stream that is decoded to its end passes the checks of the turn's event order.
use swain.Common.{
  or_else, String, Option, none, List, [], ◌++◌, ◌||◌, ◌≡◌, refl, str_eq, inl, inr, if_both,
}
use swain.Llms.Turn.{unknown, Finish, Turn, Summary, FinishReason, fine, from_events}
use swain.Llms.Turn.Progress.{Accepts-append}
use swain.Llms.Client.{Fallible, yields}
use swain.Llms.Stream.Accepted.{Follows, FollowsIfAny, Concludes, decode_with-accepted}
use swain.Llms.ToolInput
use swain.Llms.ToolInput.Accepted.{Fallible-cases, finish_all-Accepts}
use swain.Llms.Codex.{
  DecodeState, Step, make_state, push_text, push_reasoning, take_text, take_reasoning,
  record_completion, close_all, flushed, flush, handle_chunk, decode,
}
use swain.Llms.Codex.Wire.{
  WireChunk, is_reasoning_delta, is_reasoning_done, completed_reason, incomplete_reason,
}
use swain.Llms.Codex.Contents.{
  Agrees, nothing-Follows, close_text-Follows, close_reasoning-Follows, push_text-Follows,
  push_reasoning-Follows, when_text-Follows, close_all-Follows,
}
use swain.Llms.Codex.Calls.{
  track_item-Follows, take_args-Follows, finish_found-Follows, item_done-Follows,
}

take_text-Follows :
    (c : WireChunk) (s : DecodeState) (t : Turn) → Agrees s t → Follows Agrees t (take_text c s)
unfolding take_text
take_text-Follows c s t k =
    let id = or_else c.item_id "output_text" in
    when_text-Follows c.delta (push_text id) s t (λ x. push_text-Follows id x s t k) k

take_reasoning-Follows :
    (c : WireChunk) (s : DecodeState) (t : Turn)
    → Agrees s t
    → Follows Agrees t (take_reasoning c s)
unfolding take_reasoning
take_reasoning-Follows c s t k =
    let id = or_else c.item_id "reasoning" in
    when_text-Follows c.delta (push_reasoning id) s t (λ x. push_reasoning-Follows id x s t k) k

record_completion-Agrees :
    (c : WireChunk) (reason : FinishReason) (s : DecodeState) (t : Turn)
    → Agrees s t
    → Agrees (record_completion c reason s) t
unfolding record_completion
record_completion-Agrees c reason s t k = k

completion-Follows :
    (c : WireChunk) (reason : FinishReason) (s : DecodeState) (t : Turn)
    → Agrees s t
    → FollowsIfAny Agrees t (yields ([], record_completion c reason s))
completion-Follows c reason s t k =
    nothing-Follows (record_completion c reason s) t (record_completion-Agrees c reason s t k)

abbrev Passes : Turn → Fallible Step → Type 0
Passes t r = FollowsIfAny Agrees t r

module _ (parse : String → Option String) where
  flush-Concludes : (s : DecodeState) (t : Turn) → Agrees s t → Concludes t (flush parse s)
  unfolding flush flushed
  flush-Concludes s t k =
      let (closed, s') = close_all s in
      let (u, passed, g, k') = close_all-Follows s t k in
      elim (Fallible-cases (ToolInput.finish_all parse s'.assembler).0) [
        | inl (x, bad) ↦ rw (flush, bad) tt
        | inr (es, good) ↦
            let f : Finish = record {
              reason = or_else s'.finish_reason unknown;
              usage = s'.usage;
            } in
            let tools = finish_all-Accepts parse s'.assembler u es k'.ends k'.calls good in
            rw (flush, good) (closed ++ es, f, refl, Accepts-append closed es t u passed g tools)
      ]

  module _ (to_lower : String → String) where
    handle_chunk-Follows :
        (c : WireChunk) (s : DecodeState) (t : Turn)
        → Agrees s t
        → FollowsIfAny Agrees t (handle_chunk parse to_lower c s)
    unfolding handle_chunk
    handle_chunk-Follows c s t k =
        let kind = or_else c.chunk_type "" in
        let id = or_else c.item_id "" in
        if_both (Passes t) (is_reasoning_delta kind) (take_reasoning-Follows c s t k) (
          if_both (Passes t) (is_reasoning_done kind)
            (close_reasoning-Follows s t k (or_else c.item_id "reasoning"))
            (if_both (Passes t) (str_eq kind "response.output_text.delta")
              (take_text-Follows c s t k)
              (if_both (Passes t) (str_eq kind "response.output_text.done")
                (close_text-Follows s t k (or_else c.item_id "output_text"))
                (if_both (Passes t) (str_eq kind "response.output_item.added")
                  (track_item-Follows c.item s t k)
                  (if_both (Passes t) (str_eq kind "response.function_call_arguments.delta")
                    (take_args-Follows c.delta id s t k)
                    (if_both (Passes t) (str_eq kind "response.function_call_arguments.done")
                      (finish_found-Follows parse c.arguments id s t k)
                      (if_both (Passes t) (str_eq kind "response.output_item.done")
                        (item_done-Follows parse c s t k)
                        (if_both (Passes t)
                          (str_eq kind "response.completed" || str_eq kind "response.done")
                          (completion-Follows c (completed_reason c.response) s t k)
                          (if_both (Passes t) (str_eq kind "response.incomplete")
                            (completion-Follows c (incomplete_reason c.response) s t k)
                            (if_both (Passes t) (str_eq kind "response.failed") tt (
                              if_both (Passes t) (str_eq kind "error") tt
                                (nothing-Follows s t k))))))))))))

    -- A stream of chunks that is decoded without a failure, whatever the chunks are, gives events
    -- that `fromEvents` accepts.
    pub decode-passes_checks :
        (cs : List WireChunk)
        → (decode parse to_lower cs).failure ≡ none
        → (out : Summary) × (from_events (decode parse to_lower cs).events ≡ fine out)
    unfolding decode
    decode-passes_checks cs h =
        decode_with-accepted Agrees (handle_chunk parse to_lower) (flush parse)
          (λ c s t k. handle_chunk-Follows c s t k) (λ s t k. flush-Concludes s t k) cs make_state
          (record { ends = refl; texts_in = tt; reasonings_in = tt; tools_in = tt; calls = tt }) h
