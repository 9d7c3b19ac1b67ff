-- ===== src/Agent/Loop/Budget.antt =====
-- How many requests a run of the loop hands to the client.
use swain.Common.{
  ℕ, zero, suc, ◌+◌, ◌*◌, ◌≤◌, Bool, Option, List, [], ◌∷◌, ◌≡◌, refl, sym, ◌∙◌, subst, arith,
  length, length-append, Bool-cases, inl, inr, filter, not,
}
use swain.Llms.Messages.{ToolCall, ToolResult}
use swain.Llms.Turn.{Summary, Checked, fine, invalid, from_events}
use swain.Llms.Client.{Request, Reply, replied, failed}
use swain.Agent.State.{Exit, LoopContext, State, ToolResultStore, emit, step_start}
use swain.Agent.Switch.{SwitchOutcome, switched, noop, error, resolve_switch}
use swain.Agent.Switch.Laws.{Keeps, resolve_switch-Keeps}
use swain.Agent.Loop.{
  Next, again, ended, is_switch, store_result, execute_tool, execute_tools, request_of, stream_once,
  pause_for, retry_with, stream_retrying, push_results, after_switch, after_calls, after_response,
  received, replied_with, iterate, proceed, loop, max_stream_retries,
}

module _ {W : Type 0} (ctx : LoopContext W) where
  store_result-sent :
      (store : Option (ToolResultStore W)) (r : ToolResult) (st : State W)
      → (store_result ctx store r st).1.sent ≡ st.sent
  unfolding store_result
  store_result-sent Option.none r st = refl
  store_result-sent (Option.some store) r st = refl

  execute_tools-sent :
      (cs : List ToolCall) (st : State W) → (execute_tools ctx cs st).1.sent ≡ st.sent
  unfolding execute_tools execute_tool
  execute_tools-sent [] st = refl
  execute_tools-sent (c ∷ cs) st =
      execute_tools-sent cs (execute_tool ctx c st).1 ∙ store_result-sent ctx.store _ _

  after_switch-sent :
      (already : Bool) (calls : List ToolCall) (st : State W) (r : SwitchOutcome × State W)
      → Keeps ctx already st r
      → (after_switch ctx already calls r).1.sent ≡ st.sent
  unfolding after_switch push_results
  after_switch-sent already calls st (switched meta, st') k = k.1
  after_switch-sent already calls st (noop m, st') k =
      execute_tools-sent (filter (λ c. not (is_switch c)) calls) st' ∙ k.1
  after_switch-sent already calls st (error m, st') k =
      execute_tools-sent (filter (λ c. not (is_switch c)) calls) st' ∙ k.1

  after_response-sent :
      (already : Bool) (calls switches : List ToolCall) (st : State W)
      → (after_calls ctx already calls switches st).1.sent ≡ st.sent
  unfolding after_calls push_results
  after_response-sent already calls [] st = execute_tools-sent calls st
  after_response-sent already calls (c ∷ cs) st =
      after_switch-sent already calls st (resolve_switch ctx c already st)
        (resolve_switch-Keeps ctx c already st)

  calls-sent :
      (already : Bool) (calls : List ToolCall) (st : State W)
      → (after_response ctx already calls st).1.sent ≡ st.sent
  unfolding after_response
  calls-sent already [] st = refl
  calls-sent already (c ∷ cs) st = after_response-sent already (c ∷ cs) _ st

  received-sent :
      (iteration : ℕ) (already : Bool) (elapsed : ℕ) (m : Checked Summary) (st : State W)
      → (received ctx iteration already elapsed m st).1.sent ≡ st.sent
  unfolding received
  received-sent iteration already elapsed (invalid m) st = refl
  received-sent iteration already elapsed (fine m) st = calls-sent already m.tool_calls _

  replied_with-sent :
      (iteration : ℕ) (already : Bool) (begin : ℕ) (r : Reply × State W)
      → (replied_with ctx iteration already begin r).1.sent ≡ r.1.sent
  unfolding replied_with
  replied_with-sent iteration already begin (failed e, st) = refl
  replied_with-sent iteration already begin (replied es, st) =
      received-sent iteration already _ (from_events es) st

  once-sent :
      (q : Request) (st : State W) → length (stream_once ctx q st).1.sent ≡ length st.sent + 1
  unfolding stream_once
  once-sent q st = length-append st.sent (q ∷ [])

  retry_with-sent :
      (n b : ℕ) (retry : State W → Reply × State W) (delay : ℕ) (r : Reply × State W)
      → length r.1.sent ≤ b
      → ((st : State W) → length st.sent ≤ b → length (retry st).1.sent ≤ b + n)
      → length (retry_with ctx retry delay r).1.sent ≤ b + n
  unfolding retry_with pause_for
  retry_with-sent n b retry delay (replied es, st) e h = omega arith
  retry_with-sent n b retry delay (failed f, st) e h = elim (Bool-cases f.retryable) [
    | inl g ↦ rw g (h (pause_for ctx delay st) e)
    | inr g ↦ rw g (omega arith)
  ]

  stream_retrying-sent :
      (n b delay : ℕ) (q : Request) (st : State W)
      → length st.sent ≤ b
      → length (stream_retrying ctx n delay q st).1.sent ≤ b + (n + 1)
  unfolding stream_retrying
  stream_retrying-sent zero b delay q st le = omega (arith, once-sent q st)
  stream_retrying-sent (suc n) b delay q st le =
      let one = once-sent q st in
      let bound =
        retry_with-sent (n + 1) (b + 1) (λ st'. stream_retrying ctx n (2 * delay) q st') delay
          (stream_once ctx q st) (omega arith)
          (λ st' le'. stream_retrying-sent n (b + 1) (2 * delay) q st' le') in
      omega arith

  iterate-sent :
      (b iteration : ℕ) (already : Bool) (st : State W)
      → length st.sent ≤ b
      → length (iterate ctx iteration already st).1.sent ≤ b + 5
  unfolding iterate
  iterate-sent b iteration already st le =
      let st' = emit (step_start iteration) st in
      let q = request_of ctx iteration st'.session in
      let r = stream_retrying ctx max_stream_retries 1000 q st' in
      subst (λ l. length l ≤ b + 5)
        (sym (replied_with-sent iteration already (ctx.host.millis st'.world) r))
        (stream_retrying-sent max_stream_retries b 1000 q st' le)

  proceed-sent :
      (b c : ℕ) (more : Bool → State W → Exit × State W) (r : Next × State W)
      → length r.1.sent ≤ b
      → ((already : Bool) (st : State W)
          → length st.sent ≤ b
          → length (more already st).1.sent ≤ b + c)
      → length (proceed ctx more r).1.sent ≤ b + c
  unfolding proceed
  proceed-sent b c more (ended exit, st) g h = omega arith
  proceed-sent b c more (again already, st) g h = h already st g

  within_budget :
      (b left iteration : ℕ) (already : Bool) (st : State W)
      → length st.sent ≤ b
      → length (loop ctx left iteration already st).1.sent ≤ b + 5 * left
  unfolding loop
  within_budget b zero iteration already st le = omega arith
  within_budget b (suc left) iteration already st le =
      let bound =
        proceed-sent (b + 5) (5 * left) (λ a' st'. loop ctx left (iteration + 1) a' st')
          (iterate ctx iteration already st) (iterate-sent b iteration already st le)
          (λ a' st' le'. within_budget (b + 5) left (iteration + 1) a' st' le') in
      omega arith

  -- Whatever the model and the tools do, the loop hands the client at most five requests for each
  -- iteration that is left: the first attempt and four retries.
  pub loop-sent :
      (left iteration : ℕ) (already : Bool) (st : State W)
      → length (loop ctx left iteration already st).1.sent ≤ length st.sent + 5 * left
  loop-sent left iteration already st =
      within_budget (length st.sent) left iteration already st (omega arith)
