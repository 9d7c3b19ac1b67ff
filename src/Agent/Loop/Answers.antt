-- ===== src/Agent/Loop/Answers.antt =====
-- Every tool call that the loop answers gets one result, under its own id and in its own place.
use swain.Common.{
  String, Bool, true, false, not, ◌||◌, Option, none, some, List, [], ◌∷◌, ◌≡◌, refl, ◌∙◌, ap₂,
  subst, arith, map, any, filter, str_eq, eq_iff, eq_refl, Dict, lookup, insert, lookup-insert,
  Bool-cases, Option-cases, inl, inr,
}
use swain.Llms.Messages.{ToolCall, ToolResult}
use swain.Context.Pairing.{has_id}
use swain.Agent.Tools.{Attempt, success, failure, result_of, run_tool, call_tool}
use swain.Agent.State.{LoopContext, State, ToolResultStore, emit, tool_execution_start}
use swain.Agent.Switch.{SwitchOutcome, switched, noop, error}
use swain.Agent.Loop.{
  is_switch, measured, store_result, execute_tool, execute_tools, switch_result, switch_results,
  set_results, results_in_order,
}

abbrev pub asked : List ToolCall → List String
asked cs = map (λ c. c.tool_call_id) cs

abbrev pub answered : List ToolResult → List String
answered rs = map (λ r. r.tool_call_id) rs

result_of-id :
    (c : ToolCall) (a : Attempt (Option String)) → (result_of c a).tool_call_id ≡ c.tool_call_id
result_of-id c (success v) = refl
result_of-id c (failure e) = refl

module _ {W : Type 0} (ctx : LoopContext W) where
  measured-id : (c : ToolCall) (st : State W) → (measured ctx c st).0.tool_call_id ≡ c.tool_call_id
  unfolding measured call_tool
  measured-id c st =
      let same = result_of-id c (run_tool ctx.registry st.session c st.world).0 in
      elim (Bool-cases (any (λ n. str_eq n c.name) ctx.timed_tools)) [
        | inl e ↦ rw e same
        | inr e ↦ rw e same
      ]

  store_result-id :
      (store : Option (ToolResultStore W)) (r : ToolResult) (st : State W)
      → (store_result ctx store r st).0.tool_call_id ≡ r.tool_call_id
  unfolding store_result
  store_result-id none r st = refl
  store_result-id (some store) r st = store.same_call st.session.tool_results r st.world

  store_result-messages :
      (store : Option (ToolResultStore W)) (r : ToolResult) (st : State W)
      → (store_result ctx store r st).1.session.messages ≡ st.session.messages
  unfolding store_result
  store_result-messages none r st = refl
  store_result-messages (some store) r st = refl

  execute_tool-id :
      (c : ToolCall) (st : State W) → (execute_tool ctx c st).0.tool_call_id ≡ c.tool_call_id
  unfolding execute_tool
  execute_tool-id c st =
      let started = emit (tool_execution_start c.name c.tool_call_id c.input) st in
      store_result-id ctx.store (measured ctx c started).0 _ ∙ measured-id c started

  execute_tool-messages :
      (c : ToolCall) (st : State W)
      → (execute_tool ctx c st).1.session.messages ≡ st.session.messages
  unfolding execute_tool
  execute_tool-messages c st = store_result-messages ctx.store _ _

  -- Executed calls are answered one by one, and the transcript is not touched.
  pub execute_tools-answered :
      (cs : List ToolCall) (st : State W) → answered (execute_tools ctx cs st).0 ≡ asked cs
  unfolding execute_tools
  execute_tools-answered [] st = refl
  execute_tools-answered (c ∷ cs) st =
      ap₂ (λ i is. i ∷ is) (execute_tool-id c st)
        (execute_tools-answered cs (execute_tool ctx c st).1)

  pub execute_tools-messages :
      (cs : List ToolCall) (st : State W)
      → (execute_tools ctx cs st).1.session.messages ≡ st.session.messages
  unfolding execute_tools
  execute_tools-messages [] st = refl
  execute_tools-messages (c ∷ cs) st =
      execute_tools-messages cs (execute_tool ctx c st).1 ∙ execute_tool-messages c st

abbrev is_present : Option ToolResult → Bool
is_present none = false
is_present (some r) = true

-- Every result stands under its own id.
abbrev AreKeyed : Dict ToolResult → Type 0
AreKeyed m = (id : String) (r : ToolResult) → lookup id m ≡ some r → r.tool_call_id ≡ id

insert-AreKeyed :
    (r : ToolResult) (m : Dict ToolResult) → AreKeyed m → AreKeyed (insert r.tool_call_id r m)
insert-AreKeyed r m h id r' e =
    ground (arith, h id r', lookup-insert r.tool_call_id id r m, eq_iff r.tool_call_id id)

switch_result-id :
    (o : SwitchOutcome) (first : Bool) (c : ToolCall)
    → (switch_result o first c).tool_call_id ≡ c.tool_call_id
switch_result-id o false c = refl
switch_result-id (noop m) true c = refl
switch_result-id (error m) true c = refl
switch_result-id (switched m) true c = refl

switch_results-AreKeyed :
    (o : SwitchOutcome) (first : Bool) (cs : List ToolCall) (m : Dict ToolResult)
    → AreKeyed m
    → AreKeyed (switch_results o first cs m)
unfolding switch_results
switch_results-AreKeyed o first [] m h = h
switch_results-AreKeyed o first (c ∷ cs) m h =
    let r = switch_result o first c in
    switch_results-AreKeyed o false cs _
      (subst (λ i. AreKeyed (insert i r m)) (switch_result-id o first c) (insert-AreKeyed r m h))

set_results-AreKeyed :
    (cs : List ToolCall) (rs : List ToolResult) (m : Dict ToolResult)
    → answered rs ≡ asked cs
    → AreKeyed m
    → AreKeyed (set_results cs rs m)
unfolding set_results
set_results-AreKeyed [] rs m e h = h
set_results-AreKeyed (c ∷ cs) [] m e h = h
set_results-AreKeyed (c ∷ cs) (r ∷ rs) m e h =
    set_results-AreKeyed cs rs _ (cc)
      (subst (λ i. AreKeyed (insert i r m)) (cc) (insert-AreKeyed r m h))

switch_results-present :
    (o : SwitchOutcome) (first : Bool) (cs : List ToolCall) (m : Dict ToolResult) (id : String)
    → is_present (lookup id (switch_results o first cs m))
      ≡ (has_id (asked cs) id || is_present (lookup id m))
unfolding switch_results
switch_results-present o first [] m id = refl
switch_results-present o first (c ∷ cs) m id = ground (
  arith,
  switch_results-present o false cs (insert c.tool_call_id (switch_result o first c) m) id,
  lookup-insert c.tool_call_id id (switch_result o first c) m,
)

set_results-present :
    (cs : List ToolCall) (rs : List ToolResult) (m : Dict ToolResult) (id : String)
    → answered rs ≡ asked cs
    → is_present (lookup id (set_results cs rs m))
      ≡ (has_id (asked cs) id || is_present (lookup id m))
unfolding set_results
set_results-present [] rs m id e = refl
set_results-present (c ∷ cs) [] m id e = absurd (cc)
set_results-present (c ∷ cs) (r ∷ rs) m id e =
    let later = set_results-present cs rs (insert c.tool_call_id r m) id (cc) in
    ground (arith, later, lookup-insert c.tool_call_id id r m)

results_in_order-answered :
    (cs : List ToolCall) (m : Dict ToolResult)
    → AreKeyed m
    → ((id : String) → has_id (asked cs) id ≡ true → is_present (lookup id m) ≡ true)
    → answered (results_in_order cs m) ≡ asked cs
unfolding results_in_order
results_in_order-answered [] m keyed h = refl
results_in_order-answered (c ∷ cs) m keyed h =
    let rest = results_in_order-answered cs m keyed (λ id e. h id (ground arith)) in
    elim (Option-cases (lookup c.tool_call_id m)) [
      | inl e ↦ absurd (ground (arith, h c.tool_call_id, eq_refl c.tool_call_id))
      | inr (r, e) ↦ rw (e, results_in_order) (ap₂ (λ i is. i ∷ is) (keyed c.tool_call_id r e) rest)
    ]

split_asked :
    (p : ToolCall → Bool) (cs : List ToolCall) (id : String)
    → has_id (asked cs) id
      ≡ (has_id (asked (filter (λ c. not (p c)) cs)) id || has_id (asked (filter p cs)) id)
split_asked p [] id = refl
split_asked p (c ∷ cs) id = ground (arith, split_asked p cs id)

-- Where a switch is refused, each call has one result, in the order of the calls.
pub refused_switch-answered :
    (o : SwitchOutcome) (calls : List ToolCall) (rs : List ToolResult)
    → answered rs ≡ asked (filter (λ c. not (is_switch c)) calls)
    → answered (
        results_in_order calls (
          set_results
            (filter (λ c. not (is_switch c)) calls)
            rs
            (switch_results o true (filter is_switch calls) [])))
      ≡ asked calls
unfolding lookup
refused_switch-answered o calls rs e =
    let siblings = filter (λ c. not (is_switch c)) calls in
    let answers = switch_results o true (filter is_switch calls) [] in
    results_in_order-answered calls _
      (set_results-AreKeyed siblings rs answers e
        (switch_results-AreKeyed o true (filter is_switch calls) [] (λ id r f. absurd (cc))))
      (λ id h. ground (
        arith,
        set_results-present siblings rs answers id e,
        switch_results-present o true (filter is_switch calls) [] id,
        split_asked is_switch calls id,
      ))
