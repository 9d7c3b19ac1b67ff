-- ===== src/Llms/OpenaiChat/Contents.antt =====
-- The contents that a step opens and closes.
use swain.Common.{
  subst, Option, str_eq, ◌+◌, String, true, Option, none, some, List, [], ◌∷◌, ◌≡◌, ◌∙◌, inl, inr,
  Option-cases, All, All-map, if_both, Indexed,
}
use swain.Llms.Messages.{◌&◌, decimal}
use swain.Llms.Turn.{
  LlmEvent, text_start, text_delta, text_end, reasoning_start, reasoning_delta, reasoning_end, Turn,
  has,
}
use swain.Llms.Turn.Progress.{Grows, Grows-trans, Accepts, Accepts-nil, consume-append}
use swain.Llms.Turn.Steps.{
  text_start-passes, reasoning_start-passes, Accepts-text_delta, Accepts-text_end,
  Accepts-reasoning_delta, Accepts-reasoning_end,
}
use swain.Llms.Stream.Accepted.{Follows, Follows-and_then}
use swain.Llms.ToolInput.{Assembler}
use swain.Llms.ToolInput.Accepted.{AreKnown, AreKnown-Grows}
use swain.Llms.OpenaiChat.{
  DecodeState, Step, close_text, close_reasoning, push_reasoning, push_text, when_text,
  reasoning_step, text_step,
}

-- The start of open content was seen.
abbrev pub IsOpen : List String → Option String → Type 0
IsOpen ids none = Unit
IsOpen ids (some id) = has ids id ≡ true

pub IsOpen-mono :
    (ids later : List String) (o : Option String)
    → ((id : String) → has ids id ≡ true → has later id ≡ true)
    → IsOpen ids o
    → IsOpen later o
IsOpen-mono ids later none g k = tt
IsOpen-mono ids later (some id) g k = g id k

-- The decoder's open contents and calls agree with the state of the checks.
pub record Tracks (text reasoning : Option String) (ids : Indexed String) (a : Assembler) (t : Turn)
    : Type 0 where
  pub ends : t.finish ≡ none
  pub texts : IsOpen t.text_started text
  pub reasonings : IsOpen t.reasoning_started reasoning
  pub tools : All (λ e. has t.tool_started e.1 ≡ true) ids
  pub calls : AreKnown t a

abbrev pub Agrees : DecodeState → Turn → Type 0
Agrees s t = Tracks s.text_id s.reasoning_id s.tool_ids_by_index s.assembler t

pub Agrees-Grows : {t u : Turn} (s : DecodeState) → Grows t u → Agrees s t → Agrees s u
Agrees-Grows {t} {u} s g k = record {
  ends = g.ends ∙ k.ends;
  texts = IsOpen-mono t.text_started u.text_started s.text_id g.texts k.texts;
  reasonings =
      IsOpen-mono t.reasoning_started u.reasoning_started s.reasoning_id g.reasonings k.reasonings;
  tools = All-map s.tool_ids_by_index (λ e h. g.tools e.1 h) k.tools;
  calls = AreKnown-Grows s.assembler g k.calls;
}

pub Accepts-Follows :
    (es : List LlmEvent) (s : DecodeState) (t : Turn)
    → Agrees s t
    → Accepts es t
    → Follows Agrees t (es, s)
Accepts-Follows es s t k (u, passed, g) = (u, passed, g, Agrees-Grows s g k)

pub nothing-Follows : (s : DecodeState) (t : Turn) → Agrees s t → Follows Agrees t ([], s)
nothing-Follows s t k = Accepts-Follows [] s t k (Accepts-nil t)

-- A content that is closed, and one that is opened.
module _ (s : DecodeState) (t : Turn) (k : Agrees s t) where
  pub text-Agrees :
      (o : Option String) → IsOpen t.text_started o → Agrees (record s { text_id = o }) t
  text-Agrees o h = record {
    ends = k.ends;
    texts = h;
    reasonings = k.reasonings;
    tools = k.tools;
    calls = k.calls;
  }

  pub reasoning-Agrees :
      (o : Option String) → IsOpen t.reasoning_started o → Agrees (record s { reasoning_id = o }) t
  reasoning-Agrees o h = record {
    ends = k.ends;
    texts = k.texts;
    reasonings = h;
    tools = k.tools;
    calls = k.calls;
  }

  pub close_text-Follows : Follows Agrees t (close_text s)
  unfolding close_text
  close_text-Follows = elim (Option-cases s.text_id) [
    | inl e ↦ rw (close_text, e) (nothing-Follows s t k)
    | inr (id, e) ↦
        let begun : has t.text_started id ≡ true = subst (IsOpen t.text_started) e k.texts in
        rw (close_text, e)
          (Accepts-Follows (text_end id ∷ []) (record s { text_id = none }) t (text-Agrees none tt)
            (Accepts-text_end t k.ends id begun))
  ]

  pub close_reasoning-Follows : Follows Agrees t (close_reasoning s)
  unfolding close_reasoning
  close_reasoning-Follows = elim (Option-cases s.reasoning_id) [
    | inl e ↦ rw (close_reasoning, e) (nothing-Follows s t k)
    | inr (id, e) ↦
        let begun : has t.reasoning_started id ≡ true =
          subst (IsOpen t.reasoning_started) e k.reasonings in
        rw (close_reasoning, e)
          (Accepts-Follows (reasoning_end id ∷ []) (record s { reasoning_id = none }) t
            (reasoning-Agrees none tt) (Accepts-reasoning_end t k.ends id begun))
  ]

pub push_text-Follows :
    (x : String) (s : DecodeState) (t : Turn) → Agrees s t → Follows Agrees t (push_text x s)
unfolding push_text
push_text-Follows x s t k = elim (Option-cases s.text_id) [
  | inl e ↦
      let id = "text-" & decimal (s.text_count + 1) in
      let begin = text_start id ∷ [] in
      let (u, passed, g, now) = text_start-passes t k.ends id in
      let opened : DecodeState = record s { text_id = some id } in
      let k' : Agrees opened u = text-Agrees s u (Agrees-Grows s g k) (some id) now in
      let (v, later, g') = Accepts-text_delta u (g.ends ∙ k.ends) id x now in
      let both = consume-append begin (text_delta id x ∷ []) t u passed ∙ later in
      rw (push_text, e) (v, both, Grows-trans g g', Agrees-Grows opened g' k')
  | inr (id, e) ↦
      let begun : has t.text_started id ≡ true = subst (IsOpen t.text_started) e k.texts in
      rw (push_text, e)
        (Accepts-Follows (text_delta id x ∷ []) s t k (Accepts-text_delta t k.ends id x begun))
]

pub push_reasoning-Follows :
    (x : String) (s : DecodeState) (t : Turn) → Agrees s t → Follows Agrees t (push_reasoning x s)
unfolding push_reasoning
push_reasoning-Follows x s t k = elim (Option-cases s.reasoning_id) [
  | inl e ↦
      let id = "reasoning-" & decimal (s.reasoning_count + 1) in
      let begin = reasoning_start id ∷ [] in
      let (u, passed, g, now) = reasoning_start-passes t k.ends id in
      let opened : DecodeState = record s { reasoning_id = some id } in
      let k' : Agrees opened u = reasoning-Agrees s u (Agrees-Grows s g k) (some id) now in
      let (v, later, g') = Accepts-reasoning_delta u (g.ends ∙ k.ends) id x now in
      let both = consume-append begin (reasoning_delta id x ∷ []) t u passed ∙ later in
      rw (push_reasoning, e) (v, both, Grows-trans g g', Agrees-Grows opened g' k')
  | inr (id, e) ↦
      let begun : has t.reasoning_started id ≡ true =
        subst (IsOpen t.reasoning_started) e k.reasonings in
      rw (push_reasoning, e)
        (Accepts-Follows (reasoning_delta id x ∷ []) s t k
          (Accepts-reasoning_delta t k.ends id x begun))
]

pub when_text-Follows :
    (o : Option String) (f : String → DecodeState → Step) (s : DecodeState) (t : Turn)
    → ((x : String) (r : DecodeState) (u : Turn) → Agrees r u → Follows Agrees u (f x r))
    → Agrees s t
    → Follows Agrees t (when_text o f s)
unfolding when_text
when_text-Follows none f s t h k = nothing-Follows s t k
when_text-Follows (some x) f s t h k =
    if_both (Follows Agrees t) (str_eq x "") (nothing-Follows s t k) (h x s t k)

pub reasoning_step-Follows :
    (x : String) (s : DecodeState) (t : Turn) → Agrees s t → Follows Agrees t (reasoning_step x s)
unfolding reasoning_step
reasoning_step-Follows x s t k =
    Follows-and_then Agrees Agrees (close_text s) (λ r. push_reasoning x r) t
      (close_text-Follows s t k) (λ r u h. push_reasoning-Follows x r u h)

pub text_step-Follows :
    (x : String) (s : DecodeState) (t : Turn) → Agrees s t → Follows Agrees t (text_step x s)
unfolding text_step
text_step-Follows x s t k =
    Follows-and_then Agrees Agrees (close_reasoning s) (λ r. push_text x r) t
      (close_reasoning-Follows s t k) (λ r u h. push_text-Follows x r u h)
