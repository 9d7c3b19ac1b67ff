-- ===== src/Llms/OpenaiChat/Calls.antt =====
-- The tool calls that the fragments of a chunk start and extend.
use swain.Common.{
  Option, or_else, ℕ, str_eq, String, true, Option, none, some, List, [], ◌∷◌, ◌≡◌, inl, inr,
  Option-cases, if_both, All-put_at, find_at-All, find_at,
}
use swain.Llms.Messages.{◌&◌, decimal}
use swain.Llms.Turn.{Turn, has}
use swain.Llms.Turn.Progress.{Accepts-nil}
use swain.Llms.Turn.Steps.{tool_input_start-passes, Accepts-tool_input_delta}
use swain.Llms.Stream.Accepted.{Follows, Follows-and_then}
use swain.Llms.ToolInput.{start, append}
use swain.Llms.ToolInput.Accepted.{start-AreKnown, append-AreKnown}
use swain.Llms.OpenaiChat.{
  WireToolCallFragment, DecodeState, when_text, open_call, append_args, take_fragment,
  take_fragments,
}
use swain.Llms.OpenaiChat.Contents.{IsOpen, Agrees, Agrees-Grows, nothing-Follows}

-- A state in which the call of the id is begun.
abbrev pub Began : String → DecodeState → Turn → Type 0
Began id s t = Agrees s t × (has t.tool_started id ≡ true)

pub open_call-Follows :
    (index : ℕ) (f : WireToolCallFragment) (o : Option String) (s : DecodeState) (t : Turn)
    → IsOpen t.tool_started o
    → Agrees s t
    → Follows (Began (open_call index f o s).0) t (open_call index f o s).1
unfolding open_call start
open_call-Follows index f (some id) s t h k =
    let (u, passed, g) = Accepts-nil t in (u, passed, g, (Agrees-Grows s g k, g.tools id h))
open_call-Follows index f none s t h k =
    let id = or_else f.id ("call-" & decimal index) in
    let name = or_else f.name "" in
    let (u, passed, g, now) = tool_input_start-passes t k.ends id name in
    let later = Agrees-Grows s g k in
    (
      u,
      passed,
      g,
      (
        record {
          ends = later.ends;
          texts = later.texts;
          reasonings = later.reasonings;
          tools =
              All-put_at (λ i. has u.tool_started i ≡ true) index id s.tool_ids_by_index now
                later.tools;
          calls = start-AreKnown u id name s.assembler now later.calls;
        },
        now,
      ),
    )

pub append_args-Follows :
    (id x : String) (s : DecodeState) (t : Turn)
    → Began id s t
    → Follows Agrees t (append_args id x s)
unfolding append_args append
append_args-Follows id x s t (k, h) =
    let (u, passed, g) = Accepts-tool_input_delta t k.ends id x h in
    let later = Agrees-Grows s g k in
    (
      u,
      passed,
      g,
      record {
        ends = later.ends;
        texts = later.texts;
        reasonings = later.reasonings;
        tools = later.tools;
        calls = append-AreKnown u id x s.assembler later.calls;
      },
    )

pub when_args-Follows :
    (o : Option String) (id : String) (s : DecodeState) (t : Turn)
    → Began id s t
    → Follows Agrees t (when_text o (λ x r. append_args id x r) s)
unfolding when_text
when_args-Follows none id s t k = nothing-Follows s t k.0
when_args-Follows (some x) id s t k =
    if_both (Follows Agrees t) (str_eq x "") (nothing-Follows s t k.0)
      (append_args-Follows id x s t k)

pub found-IsOpen :
    (index : ℕ) (s : DecodeState) (t : Turn)
    → Agrees s t
    → IsOpen t.tool_started (find_at index s.tool_ids_by_index)
found-IsOpen index s t k = elim (Option-cases (find_at index s.tool_ids_by_index)) [
  | inl e ↦ rw e tt
  | inr (id, e) ↦
      rw e (find_at-All (λ i. has t.tool_started i ≡ true) index id s.tool_ids_by_index e k.tools)
]

pub take_fragment-Follows :
    (f : WireToolCallFragment) (s : DecodeState) (t : Turn)
    → Agrees s t
    → Follows Agrees t (take_fragment f s)
unfolding take_fragment
take_fragment-Follows f s t k =
    let index = or_else f.index 0 in
    let call = open_call index f (find_at index s.tool_ids_by_index) s in
    Follows-and_then (Began call.0) Agrees call.1
      (λ r. when_text f.arguments (λ x r'. append_args call.0 x r') r) t
      (open_call-Follows index f (find_at index s.tool_ids_by_index) s t (found-IsOpen index s t k)
        k)
      (λ r u h. when_args-Follows f.arguments call.0 r u h)

pub take_fragments-Follows :
    (fs : List WireToolCallFragment) (s : DecodeState) (t : Turn)
    → Agrees s t
    → Follows Agrees t (take_fragments fs s)
unfolding take_fragments
take_fragments-Follows [] s t k = nothing-Follows s t k
take_fragments-Follows (f ∷ fs) s t k =
    Follows-and_then Agrees Agrees (take_fragment f s) (λ r. take_fragments fs r) t
      (take_fragment-Follows f s t k) (λ r u h. take_fragments-Follows fs r u h)
