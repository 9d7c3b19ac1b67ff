-- ===== src/Agent/Turn/Bounds.antt =====
-- How many requests a whole turn hands to the client, its compactions and its retry included.
use swain.Common.{
  Option, ℕ, ◌+◌, ◌*◌, ◌≤◌, false, [], ◌∷◌, ◌≡◌, refl, arith, length, length-append, Bool-cases,
  inl, inr, ltb, take,
}
use swain.Llms.Messages.{CompactionReason, auto, overflow}
use swain.Context.Tokens.{default_token_counter}
use swain.Context.Projection.{derive_context}
use swain.Context.Accounting.{should_auto_compact}
use swain.Context.Compaction.{CompactOptions, Compacted, done, refused, cut_of, summary_request}
use swain.Agent.State.{Exit, completed, llm_failure, max_iterations_error, LoopContext, State}
use swain.Agent.Loop.{loop}
use swain.Agent.Loop.Budget.{loop-sent}
use swain.Agent.Turn.{
  options_for, is_context_overflow, warns_on_reasoning_loss, requested, warned, compact,
  retry_compacted, retry_overflow, run_with_overflow_retry, after_auto, preflight, conclude,
  run_turn,
}

module _ {W : Type 0} (ctx : LoopContext W) where
  requested-sent :
      (options : CompactOptions) (st : State W)
      → length (requested ctx options st).sent ≤ length st.sent + 1
  unfolding requested
  requested-sent options st =
      let q =
        summary_request st.session
          (take (cut_of options st.session) (derive_context st.session.messages).messages) in
      elim (Bool-cases (ltb 0 (cut_of options st.session))) [
        | inl e ↦ rw e (let one = length-append st.sent (q ∷ []) in omega arith)
        | inr e ↦ rw e (omega arith)
      ]

  warned-sent : (st : State W) → (warned ctx st).sent ≡ st.sent
  unfolding warned
  warned-sent st = elim (Bool-cases (warns_on_reasoning_loss st.session)) [
    | inl e ↦ rw e refl
    | inr e ↦ rw e refl
  ]

  compact-sent :
      (reason : CompactionReason) (st : State W)
      → length (compact ctx reason st).1.sent ≤ length st.sent + 1
  unfolding compact
  compact-sent reason st = requested-sent (options_for reason) st

  retry_compacted-sent :
      (exit : Exit) (r : Compacted × State W)
      → length (retry_compacted ctx exit r).1.sent ≤ length r.1.sent + 5 * ctx.max_iterations
  unfolding retry_compacted
  retry_compacted-sent exit (refused f, st) = omega arith
  retry_compacted-sent exit (done r, st) =
      let same = warned-sent st in
      let bound = loop-sent ctx ctx.max_iterations 0 false (warned ctx st) in rw same at bound

  retry_overflow-sent :
      (r : Exit × State W)
      → length (retry_overflow ctx r).1.sent ≤ length r.1.sent + 1 + 5 * ctx.max_iterations
  unfolding retry_overflow
  retry_overflow-sent (completed, st) = omega arith
  retry_overflow-sent (max_iterations_error m, st) = omega arith
  retry_overflow-sent (llm_failure e, st) = elim (Bool-cases (is_context_overflow e.reason)) [
    | inl f ↦
        let one = compact-sent overflow st in
        let more = retry_compacted-sent (llm_failure e) (compact ctx overflow st) in
        rw f (omega arith)
    | inr f ↦ rw f (omega arith)
  ]

  after_auto-sent : (r : Compacted × State W) → (after_auto ctx r).sent ≡ r.1.sent
  unfolding after_auto
  after_auto-sent (done r, st) = warned-sent st
  after_auto-sent (refused f, st) = refl

  preflight-sent : (st : State W) → length (preflight ctx st).sent ≤ length st.sent + 1
  unfolding preflight
  preflight-sent st =
      elim (Bool-cases (
        should_auto_compact st.session
          (record { system = Option.some (ctx.build_system st.session); tools = ctx.llm_tools })
          default_token_counter)) [
            | inl e ↦
                let one = compact-sent auto st in
                let same = after_auto-sent (compact ctx auto st) in rw (e, same) one
            | inr e ↦ rw e (omega arith)
          ]

  conclude-sent : (start : ℕ) (r : Exit × State W) → (conclude ctx start r).1.sent ≡ r.1.sent
  unfolding conclude
  conclude-sent start (completed, st) = refl
  conclude-sent start (max_iterations_error m, st) = refl
  conclude-sent start (llm_failure e, st) = refl

  -- Whatever the model, the tools and the provider do, a turn hands the client at most ten requests
  -- for each permitted iteration, and two for compactions.
  pub run_turn-sent :
      (st : State W)
      → length (run_turn ctx st).1.sent ≤ length st.sent + 10 * ctx.max_iterations + 2
  unfolding run_turn run_with_overflow_retry
  run_turn-sent st =
      let st' = preflight ctx st in
      let before = preflight-sent st in
      let once = loop-sent ctx ctx.max_iterations 0 false st' in
      let twice = retry_overflow-sent (loop ctx ctx.max_iterations 0 false st') in
      let same = conclude-sent (ctx.host.millis st.world) (run_with_overflow_retry ctx st') in
      rw same (omega arith)
