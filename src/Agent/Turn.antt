-- ===== src/Agent/Turn.antt =====
-- `runWithOverflowRetry` and `runTurn` of packages/core/src/agent.ts. The assembly of the loop's
-- context from the registry and the options is left out: a turn takes its context.
pub mod Bounds
use swain.Common.{
  ℕ, ◌-◌, String, Bool, true, false, Option, none, some, List, [], ◌∷◌, ◌++◌, if◌then◌else◌, ltb,
  take, get_last?, nat_eq,
}
use swain.Llms.Messages.{CompactionReason, auto, overflow, Message, user, assistant, ◌&◌}
use swain.Llms.Client.{LlmError, LlmErrorReason, context_length_exceeded, Request, Reply}
use swain.Session.{Session}
use swain.Context.Tokens.{default_token_counter}
use swain.Context.Projection.{derive_context}
use swain.Context.Accounting.{should_auto_compact}
use swain.Context.Compaction.{
  CompactOptions, Compacted, done, refused, CompactionFailure, compaction_error, llm_error,
  CompactionProblem, nothing_to_compact, empty_summary, tool_call, invalid_transcript, cut_of,
  summary_request, compact_session,
}
use swain.Agent.State.{
  from_agent, agent_error, compaction_warning, Exit, completed, llm_failure, max_iterations_error,
  LoopContext, State, emit, set_last,
}
use swain.Agent.Loop.{loop}

abbrev reasoning_loss_compaction_warning : String
reasoning_loss_compaction_warning =
    "Compacted a session on a model that relies on full reasoning history (Kimi K3). Moonshot flags cross-turn reasoning loss as risky; reasoning in the compacted turns will not be replayed."

-- The `message` of an error of a compaction.
abbrev message_of : CompactionFailure → String
message_of (llm_error e) = e.message
message_of (compaction_error nothing_to_compact) = "Not enough older conversation to compact yet."
message_of (compaction_error empty_summary) = "Compaction produced an empty summary."
message_of (compaction_error tool_call) = "Compaction request unexpectedly produced a tool call."
message_of (compaction_error invalid_transcript) =
    "Compaction would split a tool-call/tool-result pair."

abbrev warns_on_reasoning_loss : Session → Bool
warns_on_reasoning_loss s = elim s.system_context.model.warn_on_reasoning_loss [
  | none ↦ false
  | some b ↦ b
]

abbrev pub options_for : CompactionReason → CompactOptions
options_for reason = record { reason = reason; counter = none; tail_budget = none; now = none }

abbrev pub is_context_overflow : LlmErrorReason → Bool
is_context_overflow context_length_exceeded = true
is_context_overflow _ = false

-- Without any wait for retries: a failed summary request is not issued again.
module _ {W : Type 0} (ctx : LoopContext W) where
  -- The one request of a compaction that finds something to cut.
  requested : CompactOptions → State W → State W
  requested options st =
      let cut = cut_of options st.session in
      let q = summary_request st.session (take cut (derive_context st.session.messages).messages) in
      if ltb 0 cut
      then record st { world = (ctx.host.stream q st.world).1; sent = st.sent ++ q ∷ [] }
      else st

  warned : State W → State W
  warned st =
      if warns_on_reasoning_loss st.session
      then emit (compaction_warning reasoning_loss_compaction_warning) st
      else st

  compact : CompactionReason → State W → Compacted × State W
  unfolding requested
  compact reason st =
      let generate : Request → Reply × ℕ = λ q.
        let (reply, w) = ctx.host.stream q st.world in
        (reply, ctx.host.millis w - ctx.host.millis st.world) in
      let (outcome, s) =
        compact_session generate (ctx.host.clock st.world) (options_for reason) st.session in
      (outcome, record (requested (options_for reason) st) { session = s })

  retry_compacted : Exit → Compacted × State W → Exit × State W
  unfolding warned
  retry_compacted exit (refused f, st) = (exit, st)
  retry_compacted exit (done r, st) = loop ctx ctx.max_iterations 0 false (warned st)

  retry_overflow : Exit × State W → Exit × State W
  unfolding compact retry_compacted
  retry_overflow (completed, st) = (completed, st)
  retry_overflow (max_iterations_error m, st) = (max_iterations_error m, st)
  retry_overflow (llm_failure e, st) =
      if is_context_overflow e.reason
      then retry_compacted (llm_failure e) (compact overflow st)
      else (llm_failure e, st)

  pub run_with_overflow_retry : State W → Exit × State W
  unfolding retry_overflow
  run_with_overflow_retry st = retry_overflow (loop ctx ctx.max_iterations 0 false st)

  -- A failed automatic compaction is the last one.
  after_auto : Compacted × State W → State W
  unfolding warned
  after_auto (done r, st) = warned st
  after_auto (refused f, st) =
      emit (agent_error from_agent ("Automatic compaction failed: " & message_of f) true)
        (record st {
          session = record (st.session) {
            compaction = record (st.session.compaction) {
              auto_enabled = false;
              failure_reason = some (message_of f);
            };
          };
        })

  preflight : State W → State W
  unfolding after_auto compact
  preflight st =
      if should_auto_compact st.session
        (record { system = some (ctx.build_system st.session); tools = ctx.llm_tools })
        default_token_counter
      then after_auto (compact auto st)
      else st

  -- The latency of the whole turn goes to a final message of the assistant only.
  timed : ℕ → Option Message → List Message → List Message
  unfolding set_last
  timed elapsed none ms = ms
  timed elapsed (some (user m)) ms = ms
  timed elapsed (some (assistant m)) ms =
      set_last
        (assistant (record m { timing = record (m.timing) { turn_duration_ms = some elapsed } })) ms

  conclude : ℕ → Exit × State W → Exit × State W
  unfolding timed
  conclude start (completed, st) =
      let ms = st.session.messages in
      (
        completed,
        record st {
          session = record (st.session) {
            messages = timed (ctx.host.millis st.world - start) (get_last? ms) ms;
          };
        },
      )
  conclude start (exit, st) = (exit, st)

  unfoldable pub run_turn : State W → Exit × State W
  unfolding preflight run_with_overflow_retry conclude
  run_turn st = conclude (ctx.host.millis st.world) (run_with_overflow_retry (preflight st))
