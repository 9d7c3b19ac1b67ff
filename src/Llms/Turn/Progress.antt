-- ===== src/Llms/Turn/Progress.antt =====
-- Streams that the checks of the order let pass: the events of a decoder taken one after another.
use swain.Common.{
  String, true, none, some, List, [], ◌∷◌, ◌++◌, ◌≡◌, refl, arith, ◌∙◌, sym, ap, insert, inl, inr,
  eq_refl,
}
use swain.Llms.Messages.{ToolCall}
use swain.Llms.Turn.{
  LlmEvent, text_start, reasoning_start, tool_input_start, tool_input_end, call, finished, Finish,
  Turn, Summary, fine, empty_turn, accept, round, consume, conclude, from_events, has, summarize,
}
use swain.Llms.Turn.Order.{Checked-cases, finish_of, accept-finish}

-- A later state of an open turn: whatever was started still counts as started.
pub record Grows (t t' : Turn) : Type 0 where
  pub texts : (id : String) → has t.text_started id ≡ true → has t'.text_started id ≡ true
  pub reasonings :
      (id : String) → has t.reasoning_started id ≡ true → has t'.reasoning_started id ≡ true
  pub tools : (id : String) → has t.tool_started id ≡ true → has t'.tool_started id ≡ true
  pub ends : t'.finish ≡ t.finish

pub Grows-refl : (t : Turn) → Grows t t
Grows-refl t = record { texts = λ id h. h; reasonings = λ id h. h; tools = λ id h. h; ends = refl }

pub Grows-trans : {t u v : Turn} → Grows t u → Grows u v → Grows t v
Grows-trans g k = record {
  texts = λ id h. k.texts id (g.texts id h);
  reasonings = λ id h. k.reasonings id (g.reasonings id h);
  tools = λ id h. k.tools id (g.tools id h);
  ends = k.ends ∙ g.ends;
}

accept-text_started :
    (e : LlmEvent) (t t' : Turn) (id : String)
    → accept e t ≡ fine t'
    → has t.text_started id ≡ true
    → has t'.text_started id ≡ true
unfolding accept
accept-text_started (text_start i) t t' id a h = ground arith
accept-text_started _ t t' id a h = ground arith

accept-reasoning_started :
    (e : LlmEvent) (t t' : Turn) (id : String)
    → accept e t ≡ fine t'
    → has t.reasoning_started id ≡ true
    → has t'.reasoning_started id ≡ true
unfolding accept
accept-reasoning_started (reasoning_start i) t t' id a h = ground arith
accept-reasoning_started _ t t' id a h = ground arith

accept-tool_started :
    (e : LlmEvent) (t t' : Turn) (id : String)
    → accept e t ≡ fine t'
    → has t.tool_started id ≡ true
    → has t'.tool_started id ≡ true
unfolding accept
accept-tool_started (tool_input_start i n) t t' id a h = ground arith
accept-tool_started _ t t' id a h = ground arith

pub accept-Grows :
    (e : LlmEvent) (t t' : Turn)
    → t.finish ≡ none
    → finish_of e ≡ none
    → accept e t ≡ fine t'
    → Grows t t'
accept-Grows e t t' h q a = record {
  texts = λ id k. accept-text_started e t t' id a k;
  reasonings = λ id k. accept-reasoning_started e t t' id a k;
  tools = λ id k. accept-tool_started e t t' id a k;
  ends = accept-finish e t t' h a ∙ q ∙ sym h;
}

-- The events pass in the open turn, which stays open.
abbrev pub Accepts : List LlmEvent → Turn → Type 0
Accepts es t = (t' : Turn) × (consume es t ≡ fine t') × Grows t t'

pub Accepts-nil : (t : Turn) → Accepts [] t
unfolding consume
Accepts-nil t = (t, refl, Grows-refl t)

pub consume-cons-fine :
    (e : LlmEvent) (es : List LlmEvent) (t u : Turn)
    → t.finish ≡ none
    → accept e t ≡ fine u
    → consume (e ∷ es) t ≡ consume es u
unfolding consume round
consume-cons-fine e es t u h a = ground arith

pub consume-append :
    (es fs : List LlmEvent) (t u : Turn)
    → consume es t ≡ fine u
    → consume (es ++ fs) t ≡ consume fs u
unfolding consume
consume-append [] fs t u a = let same : t ≡ u = ground arith in ap (λ x. consume fs x) same
consume-append (e ∷ es) fs t u a = elim (Checked-cases (round e t)) [
  | inl (m, bad) ↦ absurd (ground arith)
  | inr (w, good) ↦
      let rest : consume es w ≡ fine u = ground arith in
      let again = consume-append es fs w u rest in ground arith
]

-- One event that the open turn takes.
pub Accepts-one :
    (e : LlmEvent) (t u : Turn)
    → t.finish ≡ none
    → finish_of e ≡ none
    → accept e t ≡ fine u
    → (consume (e ∷ []) t ≡ fine u) × Grows t u
unfolding consume
Accepts-one e t u h q a = (consume-cons-fine e [] t u h a, accept-Grows e t u h q a)

pub Accepts-append :
    (es fs : List LlmEvent) (t u : Turn)
    → consume es t ≡ fine u
    → Grows t u
    → Accepts fs u
    → Accepts (es ++ fs) t
Accepts-append es fs t u a g (v, b, k) = (v, consume-append es fs t u a ∙ b, Grows-trans g k)

pub has_self : (id : String) (ids : List String) → has (id ∷ ids) id ≡ true
has_self id ids = ground (arith, eq_refl id)

pub Accepts-call :
    (c : ToolCall) (t : Turn)
    → t.finish ≡ none
    → has t.tool_started c.tool_call_id ≡ true
    → Accepts (tool_input_end c.tool_call_id c.name ∷ call c ∷ []) t
unfolding accept
Accepts-call c t h k =
    let id = c.tool_call_id in
    let t₁ : Turn = record t { tool_ended = id ∷ t.tool_ended } in
    let t₂ : Turn = record t₁ { calls = insert id c t₁.calls } in
    let ends : accept (tool_input_end id c.name) t ≡ fine t₁ = rw k refl in
    let calls : accept (call c) t₁ ≡ fine t₂ = rw (has_self id t.tool_ended) refl in
    let (first, g) = Accepts-one (tool_input_end id c.name) t t₁ h refl ends in
    let (second, k') = Accepts-one (call c) t₁ t₂ h refl calls in
    Accepts-append (tool_input_end id c.name ∷ []) (call c ∷ []) t t₁ first g (t₂, second, k')

-- A stream that passes and then finishes is accepted as a whole.
pub from_events-finished :
    (es : List LlmEvent) (f : Finish)
    → Accepts es empty_turn
    → (s : Summary) × (from_events (es ++ finished f ∷ []) ≡ fine s) × (s.finish ≡ f)
unfolding from_events consume round accept conclude summarize
from_events-finished es f (u, a, g) = (
  summarize (record u { finish = some f }) f,
  rw (consume-append es (finished f ∷ []) empty_turn u a, g.ends) refl,
  refl,
)
