-- ===== src/Agent/Loop/Once.antt =====
-- A run of the loop switches its model at most once.
use swain.Common.{
  ℕ, zero, suc, ◌+◌, ◌*◌, String, Bool, true, false, Option, List, [], ◌∷◌, ◌++◌, ◌≡◌, refl, ◌∙◌,
  ap, sym, ◌⊎◌, Option-cases, arith, Bool-cases, inl, inr, filter, not,
}
use swain.Llms.Messages.{ToolCall}
use swain.Llms.Turn.{Summary, Checked, fine, invalid, from_events}
use swain.Llms.Client.{Request, Reply, replied, failed}
use swain.Session.{Session}
use swain.Context.Accounting.{record_context_usage}
use swain.Agent.State.{
  from_llm, from_agent, AgentEvent, step_start, step_end, tool_execution_start, tool_execution_end,
  agent_error, model_switch, Exit, LoopContext, State, emit,
}
use swain.Agent.Switch.{SwitchOutcome, switched, noop, error, resolve_switch}
use swain.Agent.Switch.Laws.{Keeps, resolve_switch-Keeps, Moves, resolve_switch-Moves}
use swain.Agent.Loop.Switching.{
  switches, switches-append, Same, Once, Same-trans, Once-Same, Same-Once,
}
use swain.Agent.Loop.{
  Next, again, ended, is_switch, store_result, execute_tool, execute_tools, request_of, stream_once,
  pause_for, retry_with, stream_retrying, push_results, after_switch, after_calls, after_response,
  received, replied_with, commit_response, count_usage, iterate, proceed, exceeded, loop,
  max_stream_retries,
}

-- Whether the next iteration, if there is one, takes the turn to have switched.
abbrev Carries : Bool → Next → Type 0
Carries b (again already) = already ≡ b
Carries b (ended exit) = Unit

module _ {W : Type 0} where
  -- An iteration switches only where the turn has not, and then says so.
  abbrev Spends : Bool → State W → Next × State W → Type 0
  Spends already st (next, st') =
      (Same st st' × Carries already next) ⊎ ((already ≡ false) × Once st st' × Carries true next)

  Spends-from :
      (already : Bool) (st st' : State W) (r : Next × State W)
      → Same st st'
      → Spends already st' r
      → Spends already st r
  Spends-from already st st' r h (inl (same, c)) = inl (Same-trans h same, c)
  Spends-from already st st' r h (inr (free, once, c)) = inr (free, Same-Once h once, c)

module _ {W : Type 0} (ctx : LoopContext W) where
  executed-switches :
      (es : List AgentEvent) (n c : String) (i : Option String) (b : Bool)
      → switches ((es ++ tool_execution_start n c i ∷ []) ++ tool_execution_end n c b ∷ [])
        ≡ switches es
  executed-switches es n c i b =
      let started = es ++ tool_execution_start n c i ∷ [] in
      omega (
        arith,
        switches-append es (tool_execution_start n c i ∷ []),
        switches-append started (tool_execution_end n c b ∷ []),
      )

  execute_tool-Same : (c : ToolCall) (st : State W) → Same st (execute_tool ctx c st).1
  unfolding execute_tool store_result
  execute_tool-Same c st = elim (Option-cases ctx.store) [
    | inl e ↦
        rw (execute_tool, e)
          (record {
            model = refl;
            emits = executed-switches st.events c.name c.tool_call_id c.input _;
          })
    | inr (store, e) ↦
        rw (execute_tool, e)
          (record {
            model = refl;
            emits = executed-switches st.events c.name c.tool_call_id c.input _;
          })
  ]

  execute_tools-Same : (cs : List ToolCall) (st : State W) → Same st (execute_tools ctx cs st).1
  unfolding execute_tools
  execute_tools-Same [] st = record { model = refl; emits = refl }
  execute_tools-Same (c ∷ cs) st =
      Same-trans (execute_tool-Same c st) (execute_tools-Same cs (execute_tool ctx c st).1)

  emitted : (e : AgentEvent) (st : State W) → switches (e ∷ []) ≡ 0 → Same st (emit e st)
  emitted e st h = record {
    model = refl;
    emits = omega (arith, switches-append st.events (e ∷ []), h);
  }

  after_switch-Spends :
      (already : Bool) (calls : List ToolCall) (st : State W) (r : SwitchOutcome × State W)
      → Keeps ctx already st r
      → Moves ctx st r
      → Spends already st (after_switch ctx already calls r)
  unfolding after_switch push_results
  after_switch-Spends already calls st (switched meta, st') (keeps, sent, told, first) (t, moves) =
      let one =
        switches-append st'.events (model_switch st'.session.system_context.model_ref ∷ []) in
      let same = ap switches told in
      inr (first.0, record { target = t; model = moves; emits = omega arith }, refl)
  after_switch-Spends already calls st (noop m, st') (keeps, sent, told, first) moves =
      let run = execute_tools-Same (filter (λ c. not (is_switch c)) calls) st' in
      inl (record { model = run.model ∙ moves; emits = run.emits ∙ ap switches told }, refl)
  after_switch-Spends already calls st (error m, st') (keeps, sent, told, first) moves =
      let run = execute_tools-Same (filter (λ c. not (is_switch c)) calls) st' in
      inl (record { model = run.model ∙ moves; emits = run.emits ∙ ap switches told }, refl)

  after_calls-Spends :
      (already : Bool) (calls found : List ToolCall) (st : State W)
      → Spends already st (after_calls ctx already calls found st)
  unfolding after_calls push_results
  after_calls-Spends already calls [] st =
      let run = execute_tools-Same calls st in
      inl (record { model = run.model; emits = run.emits }, refl)
  after_calls-Spends already calls (c ∷ cs) st =
      after_switch-Spends already calls st (resolve_switch ctx c already st)
        (resolve_switch-Keeps ctx c already st) (resolve_switch-Moves ctx c already st)

  after_response-Spends :
      (already : Bool) (calls : List ToolCall) (st : State W)
      → Spends already st (after_response ctx already calls st)
  unfolding after_response
  after_response-Spends already [] st = inl (record { model = refl; emits = refl }, tt)
  after_response-Spends already (c ∷ cs) st = after_calls-Spends already (c ∷ cs) _ st

  commit_response-model :
      (m : Summary) (elapsed : ℕ) (s : Session) (clock : String)
      → (commit_response ctx m elapsed s clock).system_context ≡ s.system_context
  unfolding commit_response count_usage record_context_usage
  commit_response-model m elapsed s clock = elim (Option-cases m.usage) [
    | inl e ↦ rw (commit_response, e) refl
    | inr (u, e) ↦ rw (commit_response, e) refl
  ]

  received-Spends :
      (iteration : ℕ) (already : Bool) (elapsed : ℕ) (m : Checked Summary) (st : State W)
      → Spends already st (received ctx iteration already elapsed m st)
  unfolding received
  received-Spends iteration already elapsed (invalid m) st =
      inl (emitted (agent_error from_llm m false) st refl, tt)
  received-Spends iteration already elapsed (fine m) st =
      let s = commit_response ctx m elapsed st.session (ctx.host.clock st.world) in
      let committed = record st { session = s } in
      let ending = step_end iteration m.finish.reason m.usage in
      let changed : Same st committed = record {
        model = commit_response-model m elapsed st.session (ctx.host.clock st.world);
        emits = refl;
      } in
      Spends-from already st (emit ending committed)
        (after_response ctx already m.tool_calls (emit ending committed))
        (Same-trans changed (emitted ending committed refl))
        (after_response-Spends already m.tool_calls (emit ending committed))

  replied_with-Spends :
      (iteration : ℕ) (already : Bool) (begin : ℕ) (r : Reply × State W)
      → Spends already r.1 (replied_with ctx iteration already begin r)
  unfolding replied_with
  replied_with-Spends iteration already begin (failed e, st) =
      inl (emitted (agent_error from_llm e.message false) st refl, tt)
  replied_with-Spends iteration already begin (replied es, st) =
      received-Spends iteration already _ (from_events es) st

  retry_with-Same :
      (st₀ : State W) (retry : State W → Reply × State W) (delay : ℕ) (r : Reply × State W)
      → Same st₀ r.1
      → ((st : State W) → Same st₀ st → Same st₀ (retry st).1)
      → Same st₀ (retry_with ctx retry delay r).1
  unfolding retry_with pause_for
  retry_with-Same st₀ retry delay (replied e, st) h k = h
  retry_with-Same st₀ retry delay (failed f, st) h k = elim (Bool-cases f.retryable) [
    | inl g ↦ rw g (k (pause_for ctx delay st) (record { model = h.model; emits = h.emits }))
    | inr g ↦ rw g h
  ]

  stream_retrying-Same :
      (st₀ : State W) (n delay : ℕ) (q : Request) (st : State W)
      → Same st₀ st
      → Same st₀ (stream_retrying ctx n delay q st).1
  unfolding stream_retrying stream_once
  stream_retrying-Same st₀ zero delay q st h = record { model = h.model; emits = h.emits }
  stream_retrying-Same st₀ (suc n) delay q st h =
      retry_with-Same st₀ (λ st'. stream_retrying ctx n (2 * delay) q st') delay
        (stream_once ctx q st) (record { model = h.model; emits = h.emits })
        (λ st' h'. stream_retrying-Same st₀ n (2 * delay) q st' h')

  iterate-Spends :
      (iteration : ℕ) (already : Bool) (st : State W)
      → Spends already st (iterate ctx iteration already st)
  unfolding iterate
  iterate-Spends iteration already st =
      let st' = emit (step_start iteration) st in
      let q = request_of ctx iteration st'.session in
      let reply = stream_retrying ctx max_stream_retries 1000 q st' in
      Spends-from already st reply.1
        (replied_with ctx iteration already (ctx.host.millis st'.world) reply)
        (stream_retrying-Same st max_stream_retries 1000 q st'
          (emitted (step_start iteration) st refl))
        (replied_with-Spends iteration already (ctx.host.millis st'.world) reply)

  proceed-Turned :
      (already : Bool) (st : State W) (more : Bool → State W → Exit × State W) (r : Next × State W)
      → Spends already st r
      → ((b : Bool) (st' : State W)
          → Same st' (more b st').1 ⊎ ((b ≡ false) × Once st' (more b st').1))
      → Same st (proceed ctx more r).1 ⊎ ((already ≡ false) × Once st (proceed ctx more r).1)
  unfolding proceed
  proceed-Turned already st more (ended exit, st') (inl (same, c)) h = inl same
  proceed-Turned already st more (ended exit, st') (inr (free, once, c)) h = inr (free, once)
  proceed-Turned already st more (again b, st') (inl (same, c)) h = elim (h b st') [
    | inl rest ↦ inl (Same-trans same rest)
    | inr (free, rest) ↦ inr (sym c ∙ free, Same-Once same rest)
  ]
  proceed-Turned already st more (again b, st') (inr (free, once, c)) h = elim (h b st') [
    | inl rest ↦ inr (free, Once-Same once rest)
    | inr (unspent, rest) ↦ absurd (cc)
  ]

  -- However long the loop runs, it either leaves the session's model, with its options and past
  -- models, as it was and emits no switch; or the turn had not switched before, and the model is
  -- that of exactly one transition from it, with exactly one switch emitted.
  pub loop-switches :
      (left iteration : ℕ) (already : Bool) (st : State W)
      → let after = (loop ctx left iteration already st).1 in
        Same st after ⊎ ((already ≡ false) × Once st after)
  unfolding loop
  loop-switches zero iteration already st =
      inl (emitted (agent_error from_agent (exceeded ctx) false) st refl)
  loop-switches (suc left) iteration already st =
      proceed-Turned already st (λ b st'. loop ctx left (iteration + 1) b st')
        (iterate ctx iteration already st) (iterate-Spends iteration already st)
        (λ b st'. loop-switches left (iteration + 1) b st')
