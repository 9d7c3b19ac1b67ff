-- ===== src/Agent/Loop/Transcript.antt =====
-- The loop only appends to the transcript, and keeps it validly paired.
use swain.Common.{
  ℕ, zero, suc, ◌+◌, ◌*◌, String, Bool, true, false, not, Option, none, some, List, [], ◌∷◌, ◌++◌,
  ◌≡◌, refl, sym, ◌∙◌, ap, subst, arith, map, filter, eq_refl, append-nil, append_assoc, Bool-cases,
  inl, inr, ◌⊎◌, get_last?, get_last?-snoc,
}
use swain.Llms.Messages.{
  ToolCall, ToolResult, Usage, UserMessage, AssistantContent, text, reasoning, tool_call,
  AssistantMessage, Message, user, assistant, tool_result,
}
use swain.Llms.Turn.{LlmEvent, from_events}
use swain.Llms.Turn.Order.{Checked-cases}
use swain.Llms.Turn.Calls.{call_ids, from_events-call_ids}
use swain.Llms.Client.{Request, Reply, replied, failed}
use swain.Session.{Session}
use swain.Context.Pairing.{tool_call_ids, tool_result_ids, has_id, paired_from, is_validly_paired}
use swain.Context.Pairing.Laws.{
  IsClosed, IsClosed-append, response-IsClosed, plain-IsClosed, paired_from-append,
}
use swain.Agent.State.{Exit, LoopContext, State, set_last, emit, step_start}
use swain.Agent.Switch.{SwitchOutcome, switched, noop, error, resolve_switch}
use swain.Agent.Switch.Laws.{IsPlain, Keeps, resolve_switch-Keeps}
use swain.Agent.Loop.{
  Next, again, ended, is_call, is_switch, execute_tools, switch_results, set_results,
  results_in_order, request_of, stream_once, pause_for, retry_with, proceed, stream_retrying,
  count_usage, commit_response, push_results, replace_switching, after_switch, after_calls,
  after_response, received, replied_with, iterate, loop, max_stream_retries,
}
use swain.Agent.Loop.Answers.{
  asked, answered, execute_tools-answered, execute_tools-messages, refused_switch-answered,
}

-- A transcript continued by closed messages.
abbrev pub GrowsTo : List Message → List Message → Type 0
GrowsTo before after = (ys : List Message) × (after ≡ before ++ ys) × IsClosed ys

GrowsTo-refl : (ms : List Message) → GrowsTo ms ms
unfolding paired_from
GrowsTo-refl ms = ([], sym (append-nil ms), λ a. refl)

GrowsTo-trans : (a b c : List Message) → GrowsTo a b → GrowsTo b c → GrowsTo a c
GrowsTo-trans a b c (ys, e, h) (zs, f, k) =
    (ys ++ zs, f ∙ ap (λ l. l ++ zs) e ∙ append_assoc a ys zs, IsClosed-append ys zs h k)

set_last-snoc : (ms : List Message) (a b : Message) → set_last b (ms ++ a ∷ []) ≡ ms ++ b ∷ []
unfolding set_last
set_last-snoc [] a b = refl
set_last-snoc (x ∷ []) a b = refl
set_last-snoc (x ∷ y ∷ ms) a b = ap (λ l. x ∷ l) (set_last-snoc (y ∷ ms) a b)

no_ids : (ids : List String) → ((id : String) → has_id ids id ≡ false) → ids ≡ []
no_ids [] h = refl
no_ids (k ∷ ks) h = absurd (ground (arith, h k, eq_refl k))

retained-calls :
    (m : AssistantMessage) (bs : List AssistantContent)
    → tool_call_ids (assistant (record m { content = filter (λ b. not (is_call b)) bs })) ≡ []
unfolding tool_call_ids
retained-calls m [] = refl
retained-calls m (text s ∷ bs) = retained-calls m bs
retained-calls m (reasoning s ∷ bs) = retained-calls m bs
retained-calls m (tool_call c ∷ bs) = retained-calls m bs

tool_call_ids-call_ids :
    (m : AssistantMessage) (bs : List AssistantContent)
    → tool_call_ids (assistant (record m { content = bs })) ≡ call_ids bs
unfolding tool_call_ids call_ids
tool_call_ids-call_ids m [] = refl
tool_call_ids-call_ids m (text s ∷ bs) = tool_call_ids-call_ids m bs
tool_call_ids-call_ids m (reasoning s ∷ bs) = tool_call_ids-call_ids m bs
tool_call_ids-call_ids m (tool_call c ∷ bs) =
    ap (λ l. c.tool_call_id ∷ l) (tool_call_ids-call_ids m bs)

tool_result_ids-answered :
    (m : UserMessage) (rs : List ToolResult)
    → tool_result_ids (user (record m { content = map tool_result rs })) ≡ answered rs
unfolding tool_result_ids
tool_result_ids-answered m [] = refl
tool_result_ids-answered m (r ∷ rs) = ap (λ l. r.tool_call_id ∷ l) (tool_result_ids-answered m rs)

assistant-results : (m : AssistantMessage) → tool_result_ids (assistant m) ≡ []
unfolding tool_result_ids
assistant-results m = refl

List-cases {ℓ} : {A : Type ℓ} (l : List A) → (l ≡ []) ⊎ ((x : A) × (xs : List A) × (l ≡ x ∷ xs))
List-cases [] = inl refl
List-cases (x ∷ xs) = inr (x, xs, refl)

module _ {W : Type 0} (ctx : LoopContext W) where
  replace_switching-grows :
      (meta : Message) (before : List Message) (am : AssistantMessage)
      → IsPlain meta
      → GrowsTo before
          (replace_switching ctx meta (some (assistant am)) (before ++ assistant am ∷ []))
  unfolding replace_switching
  replace_switching-grows meta before am (calls, results) =
      let closed = plain-IsClosed meta calls results in
      elim (List-cases (filter (λ b. not (is_call b)) am.content)) [
        | inl e ↦
            rw (e, replace_switching) (meta ∷ [], set_last-snoc before (assistant am) meta, closed)
        | inr (b, bs, e) ↦
            let kept : Message = assistant (record am { content = b ∷ bs }) in
            let none_left : tool_call_ids kept ≡ [] =
              subst (λ l. tool_call_ids (assistant (record am { content = l })) ≡ []) e
                (retained-calls am am.content) in
            rw (e, replace_switching)
              (
                kept ∷ meta ∷ [],
                ap (λ l. l ++ meta ∷ []) (set_last-snoc before (assistant am) kept)
                    ∙ append_assoc before (kept ∷ []) (meta ∷ []),
                IsClosed-append (kept ∷ []) (meta ∷ [])
                    (plain-IsClosed kept none_left (assistant-results _)) closed,
              )
      ]

  module _ (before : List Message) (am : AssistantMessage) (calls : List ToolCall)
      (same : (id : String)
        → has_id (tool_call_ids (assistant am)) id ≡ has_id (asked calls) id) where
    push_results-grows :
        (already : Bool) (rs : List ToolResult) (st : State W)
        → st.session.messages ≡ before ++ assistant am ∷ []
        → answered rs ≡ asked calls
        → GrowsTo before (push_results ctx already rs st).1.session.messages
    unfolding push_results
    push_results-grows already rs st e ids =
        let u : UserMessage = record {
          content = map tool_result rs;
          is_meta = false;
          timing = record {
            created_at = ctx.host.clock st.world;
            response_duration_ms = none;
            turn_duration_ms = none;
          };
        } in
        let there : tool_result_ids (user u) ≡ asked calls = tool_result_ids-answered u rs ∙ ids in
        (
          assistant am ∷ user u ∷ [],
          ap (λ l. l ++ user u ∷ []) e ∙ append_assoc before (assistant am ∷ []) (user u ∷ []),
          response-IsClosed am u (λ id. same id ∙ sym (ap (λ l. has_id l id) there)),
        )

    refused-grows :
        (already : Bool) (o : SwitchOutcome) (st : State W)
        → st.session.messages ≡ before ++ assistant am ∷ []
        → let siblings = filter (λ c. not (is_switch c)) calls in
          let run = execute_tools ctx siblings st in
          let answers = switch_results o true (filter is_switch calls) [] in
          GrowsTo before
            (push_results ctx already
              (results_in_order calls (set_results siblings run.0 answers))
              run.1).1.session.messages
    refused-grows already o st e =
        let siblings = filter (λ c. not (is_switch c)) calls in
        push_results-grows already _ (execute_tools ctx siblings st).1
          (execute_tools-messages ctx siblings st ∙ e)
          (refused_switch-answered o calls _ (execute_tools-answered ctx siblings st))

    after_switch-grows :
        (already : Bool) (st : State W) (r : SwitchOutcome × State W)
        → Keeps ctx already st r
        → st.session.messages ≡ before ++ assistant am ∷ []
        → GrowsTo before (after_switch ctx already calls r).1.session.messages
    unfolding after_switch
    after_switch-grows already st (switched meta, st') (keeps, sent, told, first) e =
        let there = keeps ∙ e in
        subst (λ l. GrowsTo before (replace_switching ctx meta (get_last? l) l)) (sym there)
          (subst (λ o. GrowsTo before (replace_switching ctx meta o (before ++ assistant am ∷ [])))
            (sym (get_last?-snoc before (assistant am)))
            (replace_switching-grows meta before am first.1))
    after_switch-grows already st (noop m, st') (keeps, sent, told, first) e =
        refused-grows already (noop m) st' (keeps ∙ e)
    after_switch-grows already st (error m, st') (keeps, sent, told, first) e =
        refused-grows already (error m) st' (keeps ∙ e)

    after_calls-grows :
        (already : Bool) (switches : List ToolCall) (st : State W)
        → st.session.messages ≡ before ++ assistant am ∷ []
        → GrowsTo before (after_calls ctx already calls switches st).1.session.messages
    unfolding after_calls
    after_calls-grows already [] st e =
        push_results-grows already _ (execute_tools ctx calls st).1
          (execute_tools-messages ctx calls st ∙ e) (execute_tools-answered ctx calls st)
    after_calls-grows already (c ∷ cs) st e =
        after_switch-grows already st (resolve_switch ctx c already st)
          (resolve_switch-Keeps ctx c already st) e

  after_response-grows :
      (before : List Message) (am : AssistantMessage) (calls : List ToolCall)
      → ((id : String) → has_id (tool_call_ids (assistant am)) id ≡ has_id (asked calls) id)
      → (already : Bool) (st : State W) → st.session.messages ≡ before ++ assistant am ∷ []
      → GrowsTo before (after_response ctx already calls st).1.session.messages
  unfolding after_response
  after_response-grows before am [] same already st e =
      (assistant am ∷ [], e, plain-IsClosed (assistant am) (no_ids _ same) (assistant-results am))
  after_response-grows before am (c ∷ cs) same already st e =
      after_calls-grows before am (c ∷ cs) same already (filter is_switch (c ∷ cs)) st e

  count_usage-messages :
      (u : Option Usage) (s : Session) → (count_usage ctx u s).messages ≡ s.messages
  unfolding count_usage
  count_usage-messages none s = refl
  count_usage-messages (some u) s = refl

  received-grows :
      (iteration : ℕ) (already : Bool) (elapsed : ℕ) (es : List LlmEvent) (st : State W)
      → GrowsTo st.session.messages
          (received ctx iteration already elapsed (from_events es) st).1.session.messages
  unfolding received commit_response
  received-grows iteration already elapsed es st = elim (Checked-cases (from_events es)) [
    | inl (m, e) ↦ rw e (GrowsTo-refl st.session.messages)
    | inr (summary, e) ↦
        let am : AssistantMessage = record {
          content = summary.assistant_content;
          usage = summary.usage;
          timing = record {
            created_at = ctx.host.clock st.world;
            response_duration_ms = some elapsed;
            turn_duration_ms = none;
          };
        } in
        rw e (
          after_response-grows st.session.messages am summary.tool_calls
            (λ id.
              ap (λ l. has_id l id) (tool_call_ids-call_ids am summary.assistant_content)
              ∙ from_events-call_ids es summary id e)
            already _ (count_usage-messages summary.usage _))
  ]

  retry_with-session :
      (s : Session) (retry : State W → Reply × State W) (delay : ℕ) (r : Reply × State W)
      → r.1.session ≡ s
      → ((st : State W) → st.session ≡ s → (retry st).1.session ≡ s)
      → (retry_with ctx retry delay r).1.session ≡ s
  unfolding retry_with pause_for
  retry_with-session s retry delay (replied es, st) e h = e
  retry_with-session s retry delay (failed f, st) e h = elim (Bool-cases f.retryable) [
    | inl g ↦ rw g (h (pause_for ctx delay st) e)
    | inr g ↦ rw g e
  ]

  stream_retrying-session :
      (s : Session) (n delay : ℕ) (q : Request) (st : State W)
      → st.session ≡ s
      → (stream_retrying ctx n delay q st).1.session ≡ s
  unfolding stream_retrying stream_once
  stream_retrying-session s zero delay q st e = e
  stream_retrying-session s (suc n) delay q st e =
      retry_with-session s (λ st'. stream_retrying ctx n (2 * delay) q st') delay
        (stream_once ctx q st) e (λ st' e'. stream_retrying-session s n (2 * delay) q st' e')

  replied_with-grows :
      (iteration : ℕ) (already : Bool) (begin : ℕ) (r : Reply × State W)
      → GrowsTo r.1.session.messages (replied_with ctx iteration already begin r).1.session.messages
  unfolding replied_with
  replied_with-grows iteration already begin (failed e, st) = GrowsTo-refl st.session.messages
  replied_with-grows iteration already begin (replied es, st) =
      received-grows iteration already _ es st

  iterate-grows :
      (iteration : ℕ) (already : Bool) (st : State W)
      → GrowsTo st.session.messages (iterate ctx iteration already st).1.session.messages
  unfolding iterate
  iterate-grows iteration already st =
      let st' = emit (step_start iteration) st in
      let q = request_of ctx iteration st'.session in
      let r = stream_retrying ctx max_stream_retries 1000 q st' in
      subst
        (λ s.
          GrowsTo s.messages
            (replied_with ctx iteration already (ctx.host.millis st'.world) r).1.session.messages)
        (stream_retrying-session st.session max_stream_retries 1000 q st' refl)
        (replied_with-grows iteration already (ctx.host.millis st'.world) r)

  proceed-grows :
      (ms : List Message) (more : Bool → State W → Exit × State W) (r : Next × State W)
      → GrowsTo ms r.1.session.messages
      → ((already : Bool) (st : State W)
          → GrowsTo st.session.messages (more already st).1.session.messages)
      → GrowsTo ms (proceed ctx more r).1.session.messages
  unfolding proceed
  proceed-grows ms more (ended exit, st) g h = g
  proceed-grows ms more (again already, st) g h = GrowsTo-trans ms _ _ g (h already st)

  pub loop-grows :
      (left iteration : ℕ) (already : Bool) (st : State W)
      → GrowsTo st.session.messages (loop ctx left iteration already st).1.session.messages
  unfolding loop
  loop-grows zero iteration already st = GrowsTo-refl st.session.messages
  loop-grows (suc left) iteration already st =
      proceed-grows st.session.messages (λ a' st'. loop ctx left (iteration + 1) a' st')
        (iterate ctx iteration already st) (iterate-grows iteration already st)
        (λ already' st'. loop-grows left (iteration + 1) already' st')

  -- However the loop ends, with an answer, an error or too many iterations, it has only appended to
  -- the transcript, and a transcript that was validly paired still is: each tool call has its
  -- result in the next message, also where a model switch dropped or refused calls.
  pub loop-IsPaired :
      (left iteration : ℕ) (already : Bool) (st : State W)
      → is_validly_paired st.session.messages ≡ true
      → let after = (loop ctx left iteration already st).1.session.messages in
        (ys : List Message) × (after ≡ st.session.messages ++ ys) × (is_validly_paired after ≡ true)
  unfolding is_validly_paired
  loop-IsPaired left iteration already st h =
      let (ys, e, closed) = loop-grows left iteration already st in
      (ys, e, rw e (paired_from-append none st.session.messages ys h closed))
