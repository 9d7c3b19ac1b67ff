-- ===== src/Llms/Turn/Calls.antt =====
-- The tool calls of a turn and those of the assistant's content have the same ids.
use swain.Common.{
  String, Bool, true, false, Option, none, some, List, [], ◌∷◌, ◌++◌, ◌≡◌, refl, arith, subst, ◌∙◌,
  All, Option-cases, inl, inr, eq_iff, Dict, lookup, insert, values, map, lookup-insert, ◌&&◌, ◌||◌,
}
use swain.Llms.Messages.{ToolCall, AssistantContent, tool_call}
use swain.Llms.Turn.{
  LlmEvent, text_start, reasoning_start, tool_input_start, tool_input_end, call, Turn, Entry,
  text_entry, reasoning_entry, tool_entry, Summary, fine, empty_turn, accept, round, consume,
  summarize, from_events, has, content_of,
}
use swain.Llms.Turn.Order.{Checked-cases, conclude-fine}

-- The ids of the tool calls among blocks, and of the tools that were started.
unfoldable pub call_ids : List AssistantContent → List String
call_ids [] = []
call_ids (tool_call c ∷ bs) = c.tool_call_id ∷ call_ids bs
call_ids (_ ∷ bs) = call_ids bs

abbrev tool_ids : List Entry → List String
tool_ids [] = []
tool_ids (tool_entry id ∷ es) = id ∷ tool_ids es
tool_ids (_ ∷ es) = tool_ids es

abbrev defined {ℓ} : {A : Type ℓ} → Option A → Bool
defined none = false
defined (some a) = true

-- Every call stands under its own id.
abbrev AreKeyed : Dict ToolCall → Type 0
AreKeyed m = All (λ e. e.1.tool_call_id ≡ e.0) m

-- What the checks of the order give: a started tool has its entry, an ended one was started, a
-- call was ended.
record IsTracked (t : Turn) : Type 0 where
  entered : (id : String) → has t.tool_started id ≡ true → has (tool_ids t.content_order) id ≡ true
  begun : (id : String) → has t.tool_ended id ≡ true → has t.tool_started id ≡ true
  closed : (id : String) → defined (lookup id t.calls) ≡ true → has t.tool_ended id ≡ true
  keyed : AreKeyed t.calls

has-tool_ids-append :
    (id : String) (es : List Entry) (e : Entry)
    → has (tool_ids (es ++ e ∷ [])) id ≡ (has (tool_ids es) id || has (tool_ids (e ∷ [])) id)
has-tool_ids-append id [] e = refl
has-tool_ids-append id (text_entry j ∷ es) e = has-tool_ids-append id es e
has-tool_ids-append id (reasoning_entry j ∷ es) e = has-tool_ids-append id es e
has-tool_ids-append id (tool_entry j ∷ es) e = ground (arith, has-tool_ids-append id es e)

insert-AreKeyed :
    (c : ToolCall) (m : Dict ToolCall) → AreKeyed m → AreKeyed (insert c.tool_call_id c m)
unfolding insert
insert-AreKeyed c [] h = (refl, tt)
insert-AreKeyed c ((j, d) ∷ m) h = ground (arith, insert-AreKeyed c m h.1)

accept-IsTracked : (e : LlmEvent) (t t' : Turn) → IsTracked t → accept e t ≡ fine t' → IsTracked t'
unfolding accept
accept-IsTracked (tool_input_start j name) t t' h e = record {
  entered =
      λ id k. ground (arith, h.entered id, has-tool_ids-append id t.content_order (tool_entry j));
  begun = λ id k. ground (arith, h.begun id);
  closed = λ id k. ground (arith, h.closed id);
  keyed = ground (arith, h.keyed);
}
accept-IsTracked (tool_input_end j name) t t' h e = record {
  entered = λ id k. ground (arith, h.entered id);
  begun = λ id k. ground (arith, h.begun id, eq_iff j id);
  closed = λ id k. ground (arith, h.closed id);
  keyed = ground (arith, h.keyed);
}
accept-IsTracked (call c) t t' h e = record {
  entered = λ id k. ground (arith, h.entered id);
  begun = λ id k. ground (arith, h.begun id);
  closed = λ id k.
      ground
        (arith, h.closed id, lookup-insert c.tool_call_id id c t.calls, eq_iff c.tool_call_id id);
  keyed = ground (arith, insert-AreKeyed c t.calls h.keyed);
}
accept-IsTracked (text_start j) t t' h e = record {
  entered =
      λ id k. ground (arith, h.entered id, has-tool_ids-append id t.content_order (text_entry j));
  begun = λ id k. ground (arith, h.begun id);
  closed = λ id k. ground (arith, h.closed id);
  keyed = ground (arith, h.keyed);
}
accept-IsTracked (reasoning_start j) t t' h e = record {
  entered = λ id k.
      ground (arith, h.entered id, has-tool_ids-append id t.content_order (reasoning_entry j));
  begun = λ id k. ground (arith, h.begun id);
  closed = λ id k. ground (arith, h.closed id);
  keyed = ground (arith, h.keyed);
}
accept-IsTracked _ t t' h e = record {
  entered = λ id k. ground (arith, h.entered id);
  begun = λ id k. ground (arith, h.begun id);
  closed = λ id k. ground (arith, h.closed id);
  keyed = ground (arith, h.keyed);
}

consume-IsTracked :
    (es : List LlmEvent) (t t' : Turn) → IsTracked t → consume es t ≡ fine t' → IsTracked t'
unfolding consume round
consume-IsTracked [] t t' h e = let same : t ≡ t' = ground arith in subst IsTracked same h
consume-IsTracked (x ∷ es) t t' h e = elim (Checked-cases (accept x t)) [
  | inl (m, bad) ↦ absurd (ground arith)
  | inr (u, good) ↦ consume-IsTracked es u t' (accept-IsTracked x t u h good) (ground arith)
]

empty_turn-IsTracked : IsTracked empty_turn
unfolding lookup
empty_turn-IsTracked = record {
  entered = λ id k. k;
  begun = λ id k. k;
  closed = λ id k. k;
  keyed = tt;
}

-- A map of calls under their ids: the ids of its values are its keys.
has-values :
    (m : Dict ToolCall) (id : String)
    → AreKeyed m
    → has (map (λ c. c.tool_call_id) (values m)) id ≡ defined (lookup id m)
unfolding values lookup
has-values [] id h = refl
has-values ((j, c) ∷ m) id h =
    ground (arith, has-values m id h.1, eq_iff j id, eq_iff c.tool_call_id id)

lookup-AreKeyed :
    (m : Dict ToolCall) (id : String) (c : ToolCall)
    → AreKeyed m
    → lookup id m ≡ some c
    → c.tool_call_id ≡ id
unfolding lookup
lookup-AreKeyed [] id c h e = cc
lookup-AreKeyed ((j, d) ∷ m) id c h e = ground (arith, lookup-AreKeyed m id c h.1, eq_iff j id)

has-content_of :
    (t : Turn) (es : List Entry) (id : String)
    → AreKeyed t.calls
    → has (call_ids (content_of t es)) id ≡ (has (tool_ids es) id && defined (lookup id t.calls))
unfolding content_of call_ids
has-content_of t [] id h = refl
has-content_of t (text_entry j ∷ es) id h = has-content_of t es id h
has-content_of t (reasoning_entry j ∷ es) id h = has-content_of t es id h
has-content_of t (tool_entry j ∷ es) id h = elim (Option-cases (lookup j t.calls)) [
  | inl e ↦ rw (e, content_of, call_ids) (ground (arith, has-content_of t es id h, eq_iff j id))
  | inr (c, e) ↦
      rw (e, content_of, call_ids)
        (ground (
          arith,
          has-content_of t es id h,
          eq_iff j id,
          eq_iff c.tool_call_id id,
          lookup-AreKeyed t.calls j c h e,
        ))
]

IsTracked-has :
    (t : Turn) (id : String)
    → IsTracked t
    → (has (tool_ids t.content_order) id && defined (lookup id t.calls))
      ≡ has (map (λ c. c.tool_call_id) (values t.calls)) id
IsTracked-has t id k =
    ground (arith, has-values t.calls id k.keyed, k.entered id, k.begun id, k.closed id)

-- In an accepted turn the assistant's content has a tool call of an id exactly if the calls to
-- execute have one of that id: no call is executed that the transcript lacks, and none is left out.
pub from_events-call_ids :
    (es : List LlmEvent) (s : Summary) (id : String)
    → from_events es ≡ fine s
    → has (call_ids s.assistant_content) id ≡ has (map (λ c. c.tool_call_id) s.tool_calls) id
unfolding from_events summarize
from_events-call_ids es s id h =
    let (t, f, ran, ends, is) = conclude-fine (consume es empty_turn) s h in
    let k = consume-IsTracked es empty_turn t empty_turn-IsTracked ran in
    rw is (has-content_of t t.content_order id k.keyed ∙ IsTracked-has t id k)
