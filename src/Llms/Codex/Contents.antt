-- ===== src/Llms/Codex/Contents.antt =====
-- The contents of the items that a step opens and closes.
use swain.Common.{
  Option, str_eq, ◌+◌, String, true, Option, none, some, List, [], ◌∷◌, ◌≡◌, ◌∙◌, inl, inr,
  Option-cases, All, All-map, if_both, Dict, insert, remove, lookup, All-insert, All-remove,
  lookup-All,
}
use swain.Llms.Messages.{◌&◌, decimal}
use swain.Llms.Turn.{
  LlmEvent, text_start, text_delta, text_end, reasoning_start, reasoning_delta, reasoning_end, Turn,
  has,
}
use swain.Llms.Turn.Progress.{Grows, Grows-trans, Accepts, Accepts-nil, consume-append}
use swain.Llms.Turn.Steps.{
  text_start-passes, reasoning_start-passes, Accepts-text_delta, Accepts-text_end,
  Accepts-reasoning_delta, Accepts-reasoning_end,
}
use swain.Llms.Stream.Accepted.{Follows, Follows-and_then}
use swain.Llms.ToolInput.{Assembler}
use swain.Llms.ToolInput.Accepted.{AreKnown, AreKnown-Grows}
use swain.Llms.Codex.{
  DecodeState, Step, ToolEntry, close_text, close_reasoning, push_reasoning, push_text, when_text,
  close_texts, close_reasonings, close_all, keys,
}

-- The starts of the contents were seen.
abbrev pub AreIn : List String → Dict String → Type 0
AreIn ids m = All (λ e. has ids e.1 ≡ true) m

-- The decoder's open contents and calls agree with the state of the checks.
pub record Tracks (texts reasonings : Dict String) (tools : Dict ToolEntry) (a : Assembler)
    (t : Turn) : Type 0 where
  pub ends : t.finish ≡ none
  pub texts_in : AreIn t.text_started texts
  pub reasonings_in : AreIn t.reasoning_started reasonings
  pub tools_in : All (λ e. has t.tool_started e.1.tool_call_id ≡ true) tools
  pub calls : AreKnown t a

abbrev pub Agrees : DecodeState → Turn → Type 0
Agrees s t = Tracks s.texts s.reasonings s.tools s.assembler t

pub Agrees-Grows : {t u : Turn} (s : DecodeState) → Grows t u → Agrees s t → Agrees s u
Agrees-Grows s g k = record {
  ends = g.ends ∙ k.ends;
  texts_in = All-map s.texts (λ e h. g.texts e.1 h) k.texts_in;
  reasonings_in = All-map s.reasonings (λ e h. g.reasonings e.1 h) k.reasonings_in;
  tools_in = All-map s.tools (λ e h. g.tools e.1.tool_call_id h) k.tools_in;
  calls = AreKnown-Grows s.assembler g k.calls;
}

pub Accepts-Follows :
    (es : List LlmEvent) (s : DecodeState) (t : Turn)
    → Agrees s t
    → Accepts es t
    → Follows Agrees t (es, s)
Accepts-Follows es s t k (u, passed, g) = (u, passed, g, Agrees-Grows s g k)

pub nothing-Follows : (s : DecodeState) (t : Turn) → Agrees s t → Follows Agrees t ([], s)
nothing-Follows s t k = Accepts-Follows [] s t k (Accepts-nil t)

-- Contents that are closed or opened.
module _ (s : DecodeState) (t : Turn) (k : Agrees s t) where
  texts-Agrees : (m : Dict String) → AreIn t.text_started m → Agrees (record s { texts = m }) t
  texts-Agrees m h = record {
    ends = k.ends;
    texts_in = h;
    reasonings_in = k.reasonings_in;
    tools_in = k.tools_in;
    calls = k.calls;
  }

  reasonings-Agrees :
      (m : Dict String) → AreIn t.reasoning_started m → Agrees (record s { reasonings = m }) t
  reasonings-Agrees m h = record {
    ends = k.ends;
    texts_in = k.texts_in;
    reasonings_in = h;
    tools_in = k.tools_in;
    calls = k.calls;
  }

  pub close_text-Follows : (key : String) → Follows Agrees t (close_text key s)
  unfolding close_text
  close_text-Follows key = elim (Option-cases (lookup key s.texts)) [
    | inl e ↦ rw (close_text, e) (nothing-Follows s t k)
    | inr (id, e) ↦
        let begun = lookup-All (λ i. has t.text_started i ≡ true) key id s.texts e k.texts_in in
        let closed = All-remove (λ i. has t.text_started i ≡ true) key s.texts k.texts_in in
        rw (close_text, e)
          (Accepts-Follows (text_end id ∷ []) (record s { texts = remove key s.texts }) t
            (texts-Agrees (remove key s.texts) closed) (Accepts-text_end t k.ends id begun))
  ]

  pub close_reasoning-Follows : (key : String) → Follows Agrees t (close_reasoning key s)
  unfolding close_reasoning
  close_reasoning-Follows key = elim (Option-cases (lookup key s.reasonings)) [
    | inl e ↦ rw (close_reasoning, e) (nothing-Follows s t k)
    | inr (id, e) ↦
        let begun =
          lookup-All (λ i. has t.reasoning_started i ≡ true) key id s.reasonings e
            k.reasonings_in in
        let closed =
          All-remove (λ i. has t.reasoning_started i ≡ true) key s.reasonings k.reasonings_in in
        rw (close_reasoning, e)
          (Accepts-Follows (reasoning_end id ∷ [])
            (record s { reasonings = remove key s.reasonings }) t
            (reasonings-Agrees (remove key s.reasonings) closed)
            (Accepts-reasoning_end t k.ends id begun))
  ]

pub push_text-Follows :
    (key x : String) (s : DecodeState) (t : Turn)
    → Agrees s t
    → Follows Agrees t (push_text key x s)
unfolding push_text
push_text-Follows key x s t k = elim (Option-cases (lookup key s.texts)) [
  | inl e ↦
      let id = "text-" & decimal (s.text_count + 1) in
      let begin = text_start id ∷ [] in
      let (u, passed, g, now) = text_start-passes t k.ends id in
      let opened : DecodeState = record s { texts = insert key id s.texts } in
      let grown = Agrees-Grows s g k in
      let in_it = All-insert (λ i. has u.text_started i ≡ true) key id s.texts now grown.texts_in in
      let k' : Agrees opened u = texts-Agrees s u grown (insert key id s.texts) in_it in
      let (v, later, g') = Accepts-text_delta u (g.ends ∙ k.ends) id x now in
      let both = consume-append begin (text_delta id x ∷ []) t u passed ∙ later in
      rw (push_text, e) (v, both, Grows-trans g g', Agrees-Grows opened g' k')
  | inr (id, e) ↦
      let begun = lookup-All (λ i. has t.text_started i ≡ true) key id s.texts e k.texts_in in
      rw (push_text, e)
        (Accepts-Follows (text_delta id x ∷ []) s t k (Accepts-text_delta t k.ends id x begun))
]

pub push_reasoning-Follows :
    (key x : String) (s : DecodeState) (t : Turn)
    → Agrees s t
    → Follows Agrees t (push_reasoning key x s)
unfolding push_reasoning
push_reasoning-Follows key x s t k = elim (Option-cases (lookup key s.reasonings)) [
  | inl e ↦
      let id = "reasoning-" & decimal (s.reasoning_count + 1) in
      let begin = reasoning_start id ∷ [] in
      let (u, passed, g, now) = reasoning_start-passes t k.ends id in
      let opened : DecodeState = record s { reasonings = insert key id s.reasonings } in
      let grown = Agrees-Grows s g k in
      let in_it =
        All-insert (λ i. has u.reasoning_started i ≡ true) key id s.reasonings now
          grown.reasonings_in in
      let k' : Agrees opened u = reasonings-Agrees s u grown (insert key id s.reasonings) in_it in
      let (v, later, g') = Accepts-reasoning_delta u (g.ends ∙ k.ends) id x now in
      let both = consume-append begin (reasoning_delta id x ∷ []) t u passed ∙ later in
      rw (push_reasoning, e) (v, both, Grows-trans g g', Agrees-Grows opened g' k')
  | inr (id, e) ↦
      let begun =
        lookup-All (λ i. has t.reasoning_started i ≡ true) key id s.reasonings e k.reasonings_in in
      rw (push_reasoning, e)
        (Accepts-Follows (reasoning_delta id x ∷ []) s t k
          (Accepts-reasoning_delta t k.ends id x begun))
]

pub when_text-Follows :
    (o : Option String) (f : String → DecodeState → Step) (s : DecodeState) (t : Turn)
    → ((x : String) → Follows Agrees t (f x s))
    → Agrees s t
    → Follows Agrees t (when_text o f s)
unfolding when_text
when_text-Follows none f s t h k = nothing-Follows s t k
when_text-Follows (some x) f s t h k =
    if_both (Follows Agrees t) (str_eq x "") (nothing-Follows s t k) (h x)

close_texts-Follows :
    (ids : List String) (s : DecodeState) (t : Turn)
    → Agrees s t
    → Follows Agrees t (close_texts ids s)
unfolding close_texts
close_texts-Follows [] s t k = nothing-Follows s t k
close_texts-Follows (id ∷ ids) s t k =
    Follows-and_then Agrees Agrees (close_text id s) (λ r. close_texts ids r) t
      (close_text-Follows s t k id) (λ r u h. close_texts-Follows ids r u h)

close_reasonings-Follows :
    (ids : List String) (s : DecodeState) (t : Turn)
    → Agrees s t
    → Follows Agrees t (close_reasonings ids s)
unfolding close_reasonings
close_reasonings-Follows [] s t k = nothing-Follows s t k
close_reasonings-Follows (id ∷ ids) s t k =
    Follows-and_then Agrees Agrees (close_reasoning id s) (λ r. close_reasonings ids r) t
      (close_reasoning-Follows s t k id) (λ r u h. close_reasonings-Follows ids r u h)

pub close_all-Follows : (s : DecodeState) (t : Turn) → Agrees s t → Follows Agrees t (close_all s)
unfolding close_all
close_all-Follows s t k =
    Follows-and_then Agrees Agrees (close_texts (keys s.texts) s)
      (λ r. close_reasonings (keys r.reasonings) r) t (close_texts-Follows (keys s.texts) s t k)
      (λ r u h. close_reasonings-Follows (keys r.reasonings) r u h)
