-- ===== src/Llms/ToolInput/Accepted.antt =====
-- The events of an assembler keep the order that the turn's checks ask for.
use swain.Common.{
  All-insert, All-remove, lookup-All, String, true, Option, none, List, [], ◌∷◌, ◌++◌, ◌≡◌, refl,
  arith, ◌∙◌, sym, inl, inr, Option-cases, ◌⊎◌, All, All-map, values, lookup,
}
use swain.Llms.Turn.{LlmEvent, tool_input_end, call, Turn, has}
use swain.Llms.Turn.Progress.{Grows, Accepts, Accepts-nil, Accepts-call, Accepts-append}
use swain.Llms.Client.{Fallible, yields, fails, LlmError}
use swain.Llms.ToolInput.{
  Entry, Assembler, start, append, appended, finish_entry, finish_entries, finish, finished_entry,
  finish_all, all_finished, parse_args, call_events,
}
use swain.Llms.Messages.{◌&◌, ToolCall}

pub Fallible-cases {ℓ} :
    {A : Type ℓ} (r : Fallible A) → ((x : LlmError) × (r ≡ fails x)) ⊎ ((a : A) × (r ≡ yields a))
Fallible-cases (yields a) = inr (a, refl)
Fallible-cases (fails x) = inl (x, refl)

-- Each entry's call was started in the turn.
abbrev pub IsKnown : Turn → Entry → Type 0
IsKnown t e = has t.tool_started e.tool_call_id ≡ true

abbrev pub AreKnown : Turn → Assembler → Type 0
AreKnown t a = All (λ e. IsKnown t e.1) a

pub AreKnown-Grows : {t u : Turn} (a : Assembler) → Grows t u → AreKnown t a → AreKnown u a
AreKnown-Grows a g h = All-map a (λ e k. g.tools e.1.tool_call_id k) h

pub start-AreKnown :
    (t : Turn) (id name : String) (a : Assembler)
    → has t.tool_started id ≡ true
    → AreKnown t a
    → AreKnown t (start id name a).1
unfolding start
start-AreKnown t id name a k h =
    All-insert (λ e. IsKnown t e) id (record { tool_call_id = id; name = name; args = "" }) a k h

pub append-AreKnown :
    (t : Turn) (id delta : String) (a : Assembler) → AreKnown t a → AreKnown t (append id delta a).1
unfolding append appended
append-AreKnown t id delta a h = elim (Option-cases (lookup id a)) [
  | inl e ↦ rw e h
  | inr (o, e) ↦ rw e (
      All-insert (λ e. IsKnown t e) id (record o { args = o.args & delta }) a
        (lookup-All (λ x. IsKnown t x) id o a e h) h)
]

values-AreKnown : (t : Turn) (a : Assembler) → AreKnown t a → All (λ e. IsKnown t e) (values a)
unfolding values
values-AreKnown t [] h = tt
values-AreKnown t ((j, e) ∷ a) h = (h.0, values-AreKnown t a h.1)

module _ (parse : String → Option String) where
  finish_entry-Accepts :
      (e : Entry) (t : Turn) (evs : List LlmEvent)
      → t.finish ≡ none
      → IsKnown t e
      → finish_entry parse e ≡ yields evs
      → Accepts evs t
  unfolding finish_entry call_events
  finish_entry-Accepts e t evs h k a = elim (Fallible-cases (parse_args parse e)) [
    | inl (x, bad) ↦ absurd (ground arith)
    | inr (input, good) ↦
        let c : ToolCall = record { tool_call_id = e.tool_call_id; name = e.name; input = input } in
        let is : tool_input_end e.tool_call_id e.name ∷ call c ∷ [] ≡ evs = ground arith in
        rw (sym is) (Accepts-call c t h k)
  ]

  finish_entries-Accepts :
      (es : List Entry) (t : Turn) (evs : List LlmEvent)
      → t.finish ≡ none
      → All (λ e. IsKnown t e) es
      → finish_entries parse es ≡ yields evs
      → Accepts evs t
  unfolding finish_entries
  finish_entries-Accepts [] t evs h k a =
      let is : [] ≡ evs = ground arith in rw (sym is) (Accepts-nil t)
  finish_entries-Accepts (e ∷ es) t evs h k a = elim (Fallible-cases (finish_entry parse e)) [
    | inl (x, bad) ↦ absurd (ground arith)
    | inr (now, good) ↦ elim (Fallible-cases (finish_entries parse es)) [
      | inl (x, bad) ↦ absurd (ground arith)
      | inr (later, rest) ↦
          let is : now ++ later ≡ evs = ground arith in
          let (u, passed, g) = finish_entry-Accepts e t now h k.0 good in
          let known = All-map es (λ d l. g.tools d.tool_call_id l) k.1 in
          let later_passes = finish_entries-Accepts es u later (g.ends ∙ h) known rest in
          rw (sym is) (Accepts-append now later t u passed g later_passes)
    ]
  ]

  pub finish_all-Accepts :
      (a : Assembler) (t : Turn) (evs : List LlmEvent)
      → t.finish ≡ none
      → AreKnown t a
      → (finish_all parse a).0 ≡ yields evs
      → Accepts evs t
  unfolding finish_all all_finished
  finish_all-Accepts a t evs h k done = elim (Fallible-cases (finish_entries parse (values a))) [
    | inl (x, bad) ↦ absurd (ground arith)
    | inr (es, good) ↦
        let is : es ≡ evs = ground arith in
        rw (sym is) (finish_entries-Accepts (values a) t es h (values-AreKnown t a k) good)
  ]

  pub finish_all-AreKnown :
      (a : Assembler) (t : Turn) → AreKnown t a → AreKnown t (finish_all parse a).1
  unfolding finish_all all_finished
  finish_all-AreKnown a t k = elim (Fallible-cases (finish_entries parse (values a))) [
    | inl (x, bad) ↦ rw bad k
    | inr (es, good) ↦ rw good tt
  ]

  -- The end of one call, of which the entry is removed.
  pub finish-Accepts :
      (id : String) (a : Assembler) (t : Turn) (evs : List LlmEvent)
      → t.finish ≡ none
      → AreKnown t a
      → (finish parse id a).0 ≡ yields evs
      → Accepts evs t
  unfolding finish finished_entry
  finish-Accepts id a t evs h k done = elim (Option-cases (lookup id a)) [
    | inl e ↦ let is : [] ≡ evs = ground arith in rw (sym is) (Accepts-nil t)
    | inr (x, e) ↦
        let now : finish_entry parse x ≡ yields evs = ground arith in
        finish_entry-Accepts x t evs h (lookup-All (λ y. IsKnown t y) id x a e k) now
  ]

  pub finish-AreKnown :
      (id : String) (a : Assembler) (t : Turn) → AreKnown t a → AreKnown t (finish parse id a).1
  unfolding finish finished_entry
  finish-AreKnown id a t k = elim (Option-cases (lookup id a)) [
    | inl e ↦ rw (finish, e) k
    | inr (x, e) ↦ rw (finish, e) (All-remove (λ y. IsKnown t y) id a k)
  ]
