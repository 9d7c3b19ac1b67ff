-- ===== src/Llms/Codex/Calls.antt =====
-- The function calls that a step begins, extends and finishes.
use swain.Common.{
  Option, or_else, first_of, ◌||◌, ◌+◌, str_eq, String, true, false, Option, none, some, ◌≡◌, inl,
  inr, Option-cases, if_both, All-insert, lookup-All, insert, lookup,
}
use swain.Llms.Messages.{◌&◌, decimal}
use swain.Llms.Turn.{Turn, has}
use swain.Llms.Turn.Steps.{tool_input_start-passes, Accepts-tool_input_delta}
use swain.Llms.Stream.Accepted.{Follows, FollowsIfAny, Follows-and_then}
use swain.Llms.ToolInput
use swain.Llms.ToolInput.{start, append, Assembler}
use swain.Llms.ToolInput.Accepted.{
  start-AreKnown, append-AreKnown, finish-Accepts, finish-AreKnown, AreKnown, AreKnown-Grows,
  Fallible-cases,
}
use swain.Llms.Codex.{
  ToolEntry, DecodeState, track_function_call, track_item, append_args, take_args, with_final,
  with_assembler, finish_function_call, finish_found, item_done, close_text, close_reasoning,
}
use swain.Llms.Codex.Wire.{
  WireItem, WireChunk, encode_tool_call_id, is_function_call, item_id_of, is_call,
}
use swain.Llms.Codex.Contents.{
  Agrees, Agrees-Grows, nothing-Follows, when_text-Follows, close_text-Follows,
  close_reasoning-Follows,
}

-- The call of an entry was started in the turn.
abbrev IsBegun : Turn → ToolEntry → Type 0
IsBegun t entry = has t.tool_started entry.tool_call_id ≡ true

found-IsBegun :
    (key : String) (entry : ToolEntry) (s : DecodeState) (t : Turn)
    → lookup key s.tools ≡ some entry
    → Agrees s t
    → IsBegun t entry
found-IsBegun key entry s t e k = lookup-All (λ x. IsBegun t x) key entry s.tools e k.tools_in

-- An entry and the assembler are replaced.
replaced-Agrees :
    (key : String) (entry : ToolEntry) (a : Assembler) (s : DecodeState) (t : Turn)
    → IsBegun t entry
    → AreKnown t a
    → Agrees s t
    → Agrees (record s { assembler = a; tools = insert key entry s.tools }) t
replaced-Agrees key entry a s t now known k = record {
  ends = k.ends;
  texts_in = k.texts_in;
  reasonings_in = k.reasonings_in;
  tools_in = All-insert (λ x. IsBegun t x) key entry s.tools now k.tools_in;
  calls = known;
}

track_function_call-Follows :
    (item : WireItem) (s : DecodeState) (t : Turn)
    → Agrees s t
    → Follows Agrees t (track_function_call item s)
unfolding track_function_call start
track_function_call-Follows item s t k =
    let n = decimal (s.tool_count + 1) in
    let id = encode_tool_call_id (or_else item.call_id ("call-" & n)) item.id in
    let key = or_else (first_of item.id item.call_id) ("item-" & n) in
    let entry : ToolEntry = record { tool_call_id = id; saw_delta = false; is_finished = false } in
    let name = or_else item.name "" in
    let (u, passed, g, now) = tool_input_start-passes t k.ends id name in
    let later = Agrees-Grows s g k in
    let known = start-AreKnown u id name s.assembler now later.calls in
    let k' = replaced-Agrees key entry (start id name s.assembler).1 s u now known later in
    (u, passed, g, k')

pub track_item-Follows :
    (o : Option WireItem) (s : DecodeState) (t : Turn)
    → Agrees s t
    → Follows Agrees t (track_item o s)
unfolding track_item
track_item-Follows none s t k = nothing-Follows s t k
track_item-Follows (some item) s t k =
    if_both (Follows Agrees t) (is_function_call item) (track_function_call-Follows item s t k)
      (nothing-Follows s t k)

append_args-Follows :
    (key : String) (entry : ToolEntry) (x : String) (s : DecodeState) (t : Turn)
    → IsBegun t entry
    → Agrees s t
    → Follows Agrees t (append_args key entry x s)
unfolding append_args append
append_args-Follows key entry x s t h k =
    let id = entry.tool_call_id in
    let (u, passed, g) = Accepts-tool_input_delta t k.ends id x h in
    let later = Agrees-Grows s g k in
    let known = append-AreKnown u id x s.assembler later.calls in
    let seen = record entry { saw_delta = true } in
    let a = (append id x s.assembler).1 in
    (u, passed, g, replaced-Agrees key seen a s u (g.tools id h) known later)

pub take_args-Follows :
    (delta : Option String) (key : String) (s : DecodeState) (t : Turn)
    → Agrees s t
    → Follows Agrees t (take_args delta key s)
unfolding take_args
take_args-Follows delta key s t k = elim (Option-cases (lookup key s.tools)) [
  | inl e ↦ rw (take_args, e) (nothing-Follows s t k)
  | inr (entry, e) ↦
      rw (take_args, e)
        (if_both (Follows Agrees t) entry.is_finished (nothing-Follows s t k) (
          when_text-Follows delta (append_args key entry) s t
            (λ x. append_args-Follows key entry x s t (found-IsBegun key entry s t e k) k) k))
]

with_final-AreKnown :
    (entry : ToolEntry) (o : Option String) (a : Assembler) (t : Turn)
    → AreKnown t a
    → AreKnown t (with_final entry o a)
unfolding with_final
with_final-AreKnown entry none a t k = k
with_final-AreKnown entry (some x) a t k =
    if_both (λ b. AreKnown t b) (entry.saw_delta || str_eq x "") k
      (append-AreKnown t entry.tool_call_id x a k)

module _ (parse : String → Option String) where
  finish_function_call-Follows :
      (key : String) (entry : ToolEntry) (final : Option String) (s : DecodeState) (t : Turn)
      → IsBegun t entry
      → Agrees s t
      → FollowsIfAny Agrees t (finish_function_call parse key entry final s)
  unfolding finish_function_call with_assembler
  finish_function_call-Follows key entry final s t h k =
      let id = entry.tool_call_id in
      let a = with_final entry final s.assembler in
      let known = with_final-AreKnown entry final s.assembler t k.calls in
      let ended = record entry { is_finished = true } in
      let open_state = record s { tools = insert key ended s.tools } in
      if_both (FollowsIfAny Agrees t) entry.is_finished (nothing-Follows s t k)
        (elim (Fallible-cases (ToolInput.finish parse id a).0) [
          | inl (x, bad) ↦ rw bad tt
          | inr (es, good) ↦
              let (u, passed, g) = finish-Accepts parse id a t es k.ends known good in
              let left = finish-AreKnown parse id a u (AreKnown-Grows a g known) in
              let rest = (ToolInput.finish parse id a).1 in
              let k' =
                replaced-Agrees key ended rest s u (g.tools id h) left (Agrees-Grows s g k) in
              rw good (u, passed, g, k')
        ])

  pub finish_found-Follows :
      (final : Option String) (key : String) (s : DecodeState) (t : Turn)
      → Agrees s t
      → FollowsIfAny Agrees t (finish_found parse final key s)
  unfolding finish_found
  finish_found-Follows final key s t k = elim (Option-cases (lookup key s.tools)) [
    | inl e ↦ rw (finish_found, e) (nothing-Follows s t k)
    | inr (entry, e) ↦
        rw (finish_found, e)
          (finish_function_call-Follows key entry final s t (found-IsBegun key entry s t e k) k)
  ]

  pub item_done-Follows :
      (c : WireChunk) (s : DecodeState) (t : Turn)
      → Agrees s t
      → FollowsIfAny Agrees t (item_done parse c s)
  unfolding item_done
  item_done-Follows c s t k =
      let id = or_else (first_of (item_id_of c.item) c.item_id) "" in
      if_both (FollowsIfAny Agrees t) (is_call c.item) (finish_found-Follows none id s t k) (
        Follows-and_then Agrees Agrees (close_text id s) (λ r. close_reasoning id r) t
          (close_text-Follows s t k id) (λ r u h. close_reasoning-Follows r u h id))
