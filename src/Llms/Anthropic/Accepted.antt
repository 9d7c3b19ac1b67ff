-- ===== src/Llms/Anthropic/Accepted.antt =====
-- Every stream that is decoded to its end passes the checks of the turn's event order.
use swain.Common.{
  or_else, is_some_text, String, Bool, Option, none, some, List, [], ◌∷◌, ◌++◌, ◌≡◌, refl, ◌∙◌, inl,
  inr, Option-cases, All, All-map, if_both, All-remove_at, find_at-All, Indexed, find_at, remove_at,
  entries_at,
}
use swain.Llms.Turn.{
  LlmEvent, ProviderError, provider_error, text_end, reasoning_end, unknown, Finish, Turn, Summary,
  fine, from_events,
}
use swain.Llms.Turn.Progress.{Accepts, Accepts-nil, Accepts-append}
use swain.Llms.Turn.Steps.{Accepts-text_end, Accepts-reasoning_end, Accepts-provider_error}
use swain.Llms.Client.{Fallible, yields, fails, LlmErrorReason}
use swain.Llms.Http.{is_context_overflow}
use swain.Llms.Stream.Accepted.{Follows, FollowsIfAny, Concludes, decode_with-accepted}
use swain.Llms.ToolInput
use swain.Llms.ToolInput.{start, append, Assembler}
use swain.Llms.ToolInput.Accepted.{
  AreKnown, AreKnown-Grows, finish_all-Accepts, finish_all-AreKnown, Fallible-cases,
}
use swain.Llms.Anthropic.{
  WireChunk, WireDelta, Block, reasoning, tool, DecodeState, make_state, no_error,
  fatal_error_reason, start_block, delta_block, stopped, stop_block, failed_with, handle_error,
  handle_chunk, block_ends, flushed, flush, decode, with_tools, with_state, no_block, apply_usage,
  apply_stop_reason, usage_of, WireUsage,
}
use swain.Llms.Anthropic.Steps.{
  Tracks, IsOpen, IsOpen-Grows, Agrees, Accepts-Follows, nothing-Follows, start_wire-Follows,
  delta_of-Follows, Tracks-Grows,
}

delta_block-Follows :
    (c : WireChunk) (s : DecodeState) (t : Turn) → Agrees s t → Follows Agrees t (delta_block c s)
unfolding delta_block
delta_block-Follows c s t k = elim (Option-cases c.delta) [
  | inl e ↦ rw (delta_block, e) (nothing-Follows s t k)
  | inr (d, e) ↦
      let index = or_else c.index 0 in
      rw (delta_block, e)
        (delta_of-Follows (find_at index s.blocks) d s t
          (λ b found. find_at-All (λ x. IsOpen t x) index b s.blocks found k.blocks) k)
]

apply_usage-Tracks :
    (u : Option WireUsage) (s : DecodeState) (t : Turn)
    → Agrees s t
    → Tracks (apply_usage u s).blocks (apply_usage u s).assembler t
unfolding apply_usage
apply_usage-Tracks none s t k = k
apply_usage-Tracks (some u) s t k = k

apply_stop_reason-Tracks :
    (d : Option WireDelta) (s : DecodeState) (t : Turn)
    → Agrees s t
    → Tracks (apply_stop_reason d s).blocks (apply_stop_reason d s).assembler t
unfolding apply_stop_reason
apply_stop_reason-Tracks none s t k = k
apply_stop_reason-Tracks (some d) s t k = elim (Option-cases d.stop_reason) [
  | inl e ↦ rw e k
  | inr (r, e) ↦ rw e k
]

block_ends-Accepts :
    (bs : Indexed Block) (t : Turn)
    → t.finish ≡ none
    → All (λ e. IsOpen t e.1) bs
    → Accepts (block_ends (entries_at bs)) t
unfolding block_ends entries_at
block_ends-Accepts [] t h k = Accepts-nil t
block_ends-Accepts ((i, Block.text id) ∷ bs) t h k =
    let (u, passed, g) = Accepts-text_end t h id k.0 in
    let rest =
      block_ends-Accepts bs u (g.ends ∙ h) (All-map bs (λ e o. IsOpen-Grows e.1 g o) k.1) in
    Accepts-append (text_end id ∷ []) (block_ends (entries_at bs)) t u passed g rest
block_ends-Accepts ((i, reasoning id) ∷ bs) t h k =
    let (u, passed, g) = Accepts-reasoning_end t h id k.0 in
    let rest =
      block_ends-Accepts bs u (g.ends ∙ h) (All-map bs (λ e o. IsOpen-Grows e.1 g o) k.1) in
    Accepts-append (reasoning_end id ∷ []) (block_ends (entries_at bs)) t u passed g rest
block_ends-Accepts ((i, tool id) ∷ bs) t h k = block_ends-Accepts bs t h k.1

with_tools-Follows :
    (r : Fallible (List LlmEvent) × Assembler) (s : DecodeState) (t : Turn)
    → Agrees s t
    → ((evs : List LlmEvent) → r.0 ≡ yields evs → Accepts evs t)
    → AreKnown t r.1
    → FollowsIfAny Agrees t (with_tools s r)
with_tools-Follows (fails x, a) s t k passes known = tt
with_tools-Follows (yields evs, a) s t k passes known =
    let (u, passed, g) = passes evs refl in
    let later = Tracks-Grows s.blocks s.assembler g k in
    (
      u,
      passed,
      g,
      record { ends = later.ends; blocks = later.blocks; calls = AreKnown-Grows a g known },
    )

module _ (parse : String → Option String) (to_lower : String → String) where
  tool-Follows :
      (s : DecodeState) (t : Turn)
      → Agrees s t
      → FollowsIfAny Agrees t (with_tools s (ToolInput.finish_all parse s.assembler))
  tool-Follows s t k =
      with_tools-Follows (ToolInput.finish_all parse s.assembler) s t k
        (λ evs is. finish_all-Accepts parse s.assembler t evs k.ends k.calls is)
        (finish_all-AreKnown parse s.assembler t k.calls)

  stopped-Follows :
      (o : Option Block) (s : DecodeState) (t : Turn)
      → ((b : Block) → o ≡ some b → IsOpen t b)
      → Agrees s t
      → FollowsIfAny Agrees t (stopped parse to_lower o s)
  unfolding stopped
  stopped-Follows none s t o k = nothing-Follows s t k
  stopped-Follows (some (Block.text id)) s t o k =
      Accepts-Follows (text_end id ∷ []) s t k
        (Accepts-text_end t k.ends id (o (Block.text id) refl))
  stopped-Follows (some (reasoning id)) s t o k =
      Accepts-Follows (reasoning_end id ∷ []) s t k
        (Accepts-reasoning_end t k.ends id (o (reasoning id) refl))
  stopped-Follows (some (tool id)) s t o k = tool-Follows s t k

  stop_block-Follows :
      (c : WireChunk) (s : DecodeState) (t : Turn)
      → Agrees s t
      → FollowsIfAny Agrees t (stop_block parse to_lower c s)
  unfolding stop_block
  stop_block-Follows c s t k =
      let index = or_else c.index 0 in
      stopped-Follows (find_at index s.blocks) (record s { blocks = remove_at index s.blocks }) t
        (λ b found. find_at-All (λ x. IsOpen t x) index b s.blocks found k.blocks)
        (record {
          ends = k.ends;
          blocks = All-remove_at (λ x. IsOpen t x) index s.blocks k.blocks;
          calls = k.calls;
        })

  failed_with-Follows :
      (kind message : String) (fatal : Option (LlmErrorReason × Bool)) (s : DecodeState) (t : Turn)
      → Agrees s t
      → FollowsIfAny Agrees t
          (with_state parse to_lower s (failed_with parse to_lower kind message fatal))
  unfolding failed_with
  failed_with-Follows kind message none s t k =
      let e : ProviderError = record { message = message; code = some kind } in
      Accepts-Follows (provider_error e ∷ []) s t k (Accepts-provider_error t e k.ends)
  failed_with-Follows kind message (some (reason, retryable)) s t k = tt

  handle_error-Follows :
      (c : WireChunk) (s : DecodeState) (t : Turn)
      → Agrees s t
      → FollowsIfAny Agrees t (with_state parse to_lower s (handle_error parse to_lower c))
  unfolding handle_error
  handle_error-Follows c s t k =
      let e = or_else c.error no_error in
      let kind = or_else e.error_type "unknown_error" in
      let message = or_else e.message "provider stream error" in
      if_both (λ r. FollowsIfAny Agrees t (with_state parse to_lower s r))
        (is_context_overflow to_lower message) tt
        (failed_with-Follows kind message (fatal_error_reason kind) s t k)

  handle_chunk-Follows :
      (c : WireChunk) (s : DecodeState) (t : Turn)
      → Agrees s t
      → FollowsIfAny Agrees t (handle_chunk parse to_lower c s)
  unfolding handle_chunk start_block
  handle_chunk-Follows c s t k =
      let used = apply_usage c.message_usage s in
      let reasoned = apply_stop_reason c.delta s in
      let both = apply_usage c.usage reasoned in
      let ok = FollowsIfAny Agrees t in
      if_both ok (is_some_text "message_start" c.chunk_type)
        (nothing-Follows used t (apply_usage-Tracks c.message_usage s t k))
        (if_both ok (is_some_text "content_block_start" c.chunk_type)
          (start_wire-Follows (or_else c.index 0) (or_else c.content_block no_block) s t k)
          (if_both ok (is_some_text "content_block_delta" c.chunk_type)
            (delta_block-Follows c s t k)
            (if_both ok (is_some_text "content_block_stop" c.chunk_type)
              (stop_block-Follows c s t k)
              (if_both ok (is_some_text "message_delta" c.chunk_type)
                (nothing-Follows both t
                  (apply_usage-Tracks c.usage reasoned t (apply_stop_reason-Tracks c.delta s t k)))
                (if_both ok (is_some_text "error" c.chunk_type) (handle_error-Follows c s t k)
                  (nothing-Follows s t k))))))

  flush-Concludes : (s : DecodeState) (t : Turn) → Agrees s t → Concludes t (flush parse to_lower s)
  unfolding flush flushed
  flush-Concludes s t k = elim (Fallible-cases (ToolInput.finish_all parse s.assembler).0) [
    | inl (x, bad) ↦ rw (flush, bad) tt
    | inr (es, good) ↦
        let ends = block_ends (entries_at s.blocks) in
        let f : Finish = record { reason = or_else s.finish_reason unknown; usage = usage_of s } in
        let (u, passed, g) = block_ends-Accepts s.blocks t k.ends k.blocks in
        let tools =
          finish_all-Accepts parse s.assembler u es (g.ends ∙ k.ends)
            (AreKnown-Grows s.assembler g k.calls) good in
        let ok = Accepts-append ends es t u passed g tools in
        rw (flush, good) (ends ++ es, f, refl, ok)
  ]

  -- A stream of chunks that is decoded without a failure, whatever the chunks are, gives events that
  -- `fromEvents` accepts.
  pub decode-accepted :
      (cs : List WireChunk)
      → (decode parse to_lower cs).failure ≡ none
      → (out : Summary) × (from_events (decode parse to_lower cs).events ≡ fine out)
  unfolding decode
  decode-accepted cs h =
      decode_with-accepted Agrees (handle_chunk parse to_lower) (flush parse to_lower)
        (λ c s t k. handle_chunk-Follows c s t k) (λ s t k. flush-Concludes s t k) cs make_state
        (record { ends = refl; blocks = tt; calls = tt }) h
