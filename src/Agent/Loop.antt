-- ===== src/Agent/Loop.antt =====
-- The loop of packages/core/src/agent.ts: `executeTools`, `loop`, `runWithOverflowRetry` and the
-- part of `runTurn` behind the assembly of its context.
--
-- `loop` recurses on the iterations that are left, `maxIterations - iteration`, so it needs no fuel.
pub mod Answers
pub mod Transcript
pub mod Budget
pub mod Switching
pub mod Once
use swain.Common.{
  ℕ, zero, suc, ◌+◌, ◌*◌, ◌-◌, String, Bool, true, false, not, ◌&&◌, Option, none, some, List, [],
  ◌∷◌, ◌++◌, map, ltb, if◌then◌else◌, any, filter, take, str_eq, Dict, lookup, insert, get_last?,
}
use swain.Llms.Messages.{
  ToolCall, ToolResult, Usage, UserContent, tool_result, AssistantContent, tool_call, auto,
  overflow, Message, user, assistant, CompactionReason, decimal, ◌&◌,
}
use swain.Llms.Turn.{Summary, Checked, fine, invalid, from_events}
use swain.Llms.Client.{
  LlmError, LlmErrorReason, context_length_exceeded, invalid_provider_output, LlmTool, Request,
  Reply, replied, failed,
}
use swain.Session.{Session}
use swain.Context.Tokens.{default_token_counter}
use swain.Context.Projection.{derive_context}
use swain.Context.Accounting.{record_context_usage, should_auto_compact}
use swain.Context.Compaction.{
  CompactOptions, Compacted, done, refused, CompactionFailure, compaction_error, llm_error,
  CompactionProblem, nothing_to_compact, empty_summary, invalid_transcript, cut_of, summary_request,
  add_usage, compact_session,
}
use swain.Agent.Tools.{success_result, error_result, call_tool}
use swain.Agent.State.{
  Source, from_llm, from_agent, AgentEvent, step_start, step_end, tool_execution_start,
  tool_execution_end, agent_error, compaction_warning, model_switch, Exit, completed,
  max_iterations_error, llm_failure, ToolResultStore, LoopContext, State, emit, push_to, set_last,
  user_message, assistant_message,
}
use swain.Agent.Switch.{switch_model_name, SwitchOutcome, switched, noop, error, resolve_switch}

abbrev pub max_stream_retries : ℕ
max_stream_retries = 4

abbrev stream_retry_base_delay : ℕ
stream_retry_base_delay = 1000

-- What an iteration leaves to do: another one, with whether a switch has happened, or the end.
pub data Next : Type 0 where
  again : (switched : Bool) → Next
  ended : Exit → Next

abbrev pub is_switch : ToolCall → Bool
is_switch c = str_eq c.name switch_model_name

abbrev is_error_result : ToolResult → Bool
is_error_result r = elim r.is_error [ none ↦ false | some b ↦ b ]

abbrev pub is_call : AssistantContent → Bool
is_call (tool_call c) = true
is_call _ = false

-- The result of a switch call that is not carried out; `first` is the first such call of the step.
abbrev pub switch_result : SwitchOutcome → Bool → ToolCall → ToolResult
switch_result outcome false c = error_result c "Only one model switch is allowed per user turn."
switch_result (noop model) true c =
    success_result c (some ("{\"status\":\"noop\",\"model\":\"" & model & "\"}"))
switch_result (error message) true c = error_result c message
switch_result (switched meta) true c = error_result c ""

pub switch_results : SwitchOutcome → Bool → List ToolCall → Dict ToolResult → Dict ToolResult
switch_results outcome first [] m = m
switch_results outcome first (c ∷ cs) m =
    switch_results outcome false cs (insert c.tool_call_id (switch_result outcome first c) m)

-- `siblings.forEach((call, index) => resultById.set(call.toolCallId, siblingResults[index]))`
pub set_results : List ToolCall → List ToolResult → Dict ToolResult → Dict ToolResult
set_results [] rs m = m
set_results (c ∷ cs) [] m = m
set_results (c ∷ cs) (r ∷ rs) m = set_results cs rs (insert c.tool_call_id r m)

-- `toolCalls.map((call) => resultById.get(call.toolCallId)!)`
pub results_in_order : List ToolCall → Dict ToolResult → List ToolResult
results_in_order [] m = []
results_in_order (c ∷ cs) m = elim (lookup c.tool_call_id m) [
  | none ↦ results_in_order cs m
  | some r ↦ r ∷ results_in_order cs m
]

module _ {W : Type 0} (ctx : LoopContext W) where
  measured : ToolCall → State W → ToolResult × W
  unfolding call_tool
  measured c st =
      let (r, w) = call_tool ctx.registry st.session c st.world in
      if any (λ n. str_eq n c.name) ctx.timed_tools
      then (record r { duration_ms = some (ctx.host.millis w - ctx.host.millis st.world) }, w)
      else (r, w)

  store_result : Option (ToolResultStore W) → ToolResult → State W → ToolResult × State W
  store_result none r st = (r, st)
  store_result (some store) r st =
      let kept = store.persist st.session.tool_results r st.world in
      (
        kept.0.0,
        record st { session = record (st.session) { tool_results = kept.0.1 }; world = kept.1 },
      )

  execute_tool : ToolCall → State W → ToolResult × State W
  unfolding measured store_result
  execute_tool c st =
      let started = emit (tool_execution_start c.name c.tool_call_id c.input) st in
      let (r, w) = measured c started in
      store_result ctx.store r (
        emit (tool_execution_end c.name c.tool_call_id (is_error_result r))
          (record started { world = w }))

  pub execute_tools : List ToolCall → State W → List ToolResult × State W
  unfolding execute_tool
  execute_tools [] st = ([], st)
  execute_tools (c ∷ cs) st =
      let first = execute_tool c st in
      let rest = execute_tools cs first.1 in (first.0 ∷ rest.0, rest.1)

  -- On the last permitted iteration there are no tools.
  pub request_of : ℕ → Session → Request
  unfolding derive_context
  request_of iteration s = record {
    provider = s.system_context.model.provider;
    model_id = s.system_context.model.id;
    system = ctx.build_system s;
    messages = (derive_context s.messages).messages;
    tools = if ltb (iteration + 1) ctx.max_iterations then ctx.llm_tools else [];
    generation = s.system_context.request_options.generation;
    max_tokens = none;
    provider_options = s.system_context.request_options.provider_options;
  }

  stream_once : Request → State W → Reply × State W
  stream_once q st =
      let (reply, w) = ctx.host.stream q st.world in
      (reply, record st { world = w; sent = st.sent ++ q ∷ [] })

  pause_for : ℕ → State W → State W
  pause_for delay st = record st { world = ctx.host.pause delay st.world }

  -- What an attempt's error leads to, where `retry` is the rest of the attempts.
  retry_with : (State W → Reply × State W) → ℕ → Reply × State W → Reply × State W
  unfolding pause_for
  retry_with retry delay (replied events, st) = (replied events, st)
  retry_with retry delay (failed e, st) =
      if e.retryable then retry (pause_for delay st) else (failed e, st)

  -- A retryable error is retried, after a pause that doubles.
  pub stream_retrying : ℕ → ℕ → Request → State W → Reply × State W
  unfolding stream_once retry_with
  stream_retrying zero delay q st = stream_once q st
  stream_retrying (suc retries) delay q st =
      retry_with (λ st'. stream_retrying retries (2 * delay) q st') delay (stream_once q st)

  abbrev fail_with : LlmError → State W → Next × State W
  fail_with e st = (ended (llm_failure e), emit (agent_error from_llm e.message false) st)

  count_usage : Option Usage → Session → Session
  unfolding record_context_usage add_usage
  count_usage none s = s
  count_usage (some u) s =
      record_context_usage (record s { counters = add_usage (some u) s.counters }) u

  -- The response is appended and counted.
  commit_response : Summary → ℕ → Session → String → Session
  unfolding count_usage
  commit_response summary elapsed s clock =
      let pushed = record s {
        messages =
            s.messages
            ++ assistant_message summary.assistant_content clock (some elapsed) summary.usage ∷ [];
        counters = record (s.counters) { turns = s.counters.turns + 1 };
      } in
      count_usage summary.usage pushed

  push_results : Bool → List ToolResult → State W → Next × State W
  push_results already rs st = (
    again already,
    push_to (user_message (map tool_result rs) false (ctx.host.clock st.world) none) st,
  )

  -- The switching message keeps its text and reasoning; with neither, the meta message takes its
  -- place.
  replace_switching : Message → Option Message → List Message → List Message
  unfolding set_last
  replace_switching meta none ms = set_last meta ms
  replace_switching meta (some (user m)) ms = set_last meta ms
  replace_switching meta (some (assistant m)) ms = elim (filter (λ b. not (is_call b)) m.content) [
    | [] ↦ set_last meta ms
    | b ∷ bs ↦ set_last (assistant (record m { content = b ∷ bs })) ms ++ meta ∷ []
  ]

  -- Both ways on from the first switch call: it is carried out, or each switch call is answered
  -- and the other calls run.
  after_switch : Bool → List ToolCall → SwitchOutcome × State W → Next × State W
  unfolding replace_switching execute_tools push_results switch_results set_results results_in_order
  after_switch already calls (switched meta, st) =
      let ms = st.session.messages in
      let s = record (st.session) { messages = replace_switching meta (get_last? ms) ms } in
      (again true, emit (model_switch s.system_context.model_ref) (record st { session = s }))
  after_switch already calls (outcome, st) =
      let siblings = filter (λ c. not (is_switch c)) calls in
      let run = execute_tools siblings st in
      let answers = switch_results outcome true (filter is_switch calls) [] in
      push_results already (results_in_order calls (set_results siblings run.0 answers)) run.1

  after_calls : Bool → List ToolCall → List ToolCall → State W → Next × State W
  unfolding after_switch resolve_switch
  after_calls already calls [] st =
      let run = execute_tools calls st in push_results already run.0 run.1
  after_calls already calls (first ∷ more) st =
      after_switch already calls (resolve_switch ctx first already st)

  after_response : Bool → List ToolCall → State W → Next × State W
  unfolding after_calls
  after_response already [] st = (ended completed, st)
  after_response already (c ∷ cs) st = after_calls already (c ∷ cs) (filter is_switch (c ∷ cs)) st

  received : ℕ → Bool → ℕ → Checked Summary → State W → Next × State W
  unfolding commit_response after_response
  received iteration already elapsed (invalid m) st =
      fail_with (record { reason = invalid_provider_output; message = m; retryable = false }) st
  received iteration already elapsed (fine summary) st =
      let s = commit_response summary elapsed st.session (ctx.host.clock st.world) in
      let st' =
        emit (step_end iteration summary.finish.reason summary.usage) (record st { session = s }) in
      after_response already summary.tool_calls st'

  replied_with : ℕ → Bool → ℕ → Reply × State W → Next × State W
  unfolding received
  replied_with iteration already begin (failed e, st) = fail_with e st
  replied_with iteration already begin (replied events, st) =
      received iteration already (ctx.host.millis st.world - begin) (from_events events) st

  unfoldable pub iterate : ℕ → Bool → State W → Next × State W
  unfolding replied_with request_of stream_retrying
  iterate iteration already st =
      let st' = emit (step_start iteration) st in
      replied_with iteration already (ctx.host.millis st'.world) (
        stream_retrying max_stream_retries stream_retry_base_delay
          (request_of iteration st'.session) st')

  exceeded : String
  exceeded =
      "Exceeded " & decimal ctx.max_iterations & " tool iterations without completing the turn."

  proceed : (Bool → State W → Exit × State W) → Next × State W → Exit × State W
  proceed more (ended exit, st) = (exit, st)
  proceed more (again already, st) = more already st

  unfoldable pub loop : ℕ → ℕ → Bool → State W → Exit × State W
  unfolding iterate exceeded proceed
  loop zero iteration already st =
      (max_iterations_error exceeded, emit (agent_error from_agent exceeded false) st)
  loop (suc left) iteration already st =
      proceed (λ already' st'. loop left (iteration + 1) already' st')
        (iterate iteration already st)
