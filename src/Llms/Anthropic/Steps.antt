-- ===== src/Llms/Anthropic/Steps.antt =====
-- The starts and deltas of blocks pass the checks of the turn's event order.
use swain.Common.{
  or_else, is_some_text, ℕ, ◌&&◌, not, str_eq, ◌+◌, String, true, Option, none, some, List, [], ◌∷◌,
  ◌≡◌, refl, ◌∙◌, inl, inr, Option-cases, All, All-map, if_both, All-put_at, Indexed, put_at,
}
use swain.Llms.Messages.{◌&◌, decimal}
use swain.Llms.Turn.{
  LlmEvent, text_start, text_delta, reasoning_start, reasoning_delta, tool_input_start, Turn, fine,
  consume, has,
}
use swain.Llms.Turn.Progress.{Grows, Accepts, Accepts-nil}
use swain.Llms.Turn.Steps.{
  text_start-passes, reasoning_start-passes, tool_input_start-passes, Accepts-text_delta,
  Accepts-reasoning_delta, Accepts-tool_input_delta,
}
use swain.Llms.Stream.Accepted.{Follows}
use swain.Llms.ToolInput.{start, append, Assembler}
use swain.Llms.ToolInput.Accepted.{AreKnown, AreKnown-Grows, start-AreKnown, append-AreKnown}
use swain.Llms.Anthropic.{
  WireBlock, WireDelta, Block, reasoning, tool, DecodeState, start_wire, delta_of,
}

-- The start of an open block was seen.
abbrev pub IsOpen : Turn → Block → Type 0
IsOpen t (Block.text id) = has t.text_started id ≡ true
IsOpen t (reasoning id) = has t.reasoning_started id ≡ true
IsOpen t (tool id) = has t.tool_started id ≡ true

pub IsOpen-Grows : {t u : Turn} (b : Block) → Grows t u → IsOpen t b → IsOpen u b
IsOpen-Grows (Block.text id) g h = g.texts id h
IsOpen-Grows (reasoning id) g h = g.reasonings id h
IsOpen-Grows (tool id) g h = g.tools id h

-- The decoder's state agrees with that of the checks.
pub record Tracks (bs : Indexed Block) (a : Assembler) (t : Turn) : Type 0 where
  pub ends : t.finish ≡ none
  pub blocks : All (λ e. IsOpen t e.1) bs
  pub calls : AreKnown t a

pub Tracks-Grows :
    {t u : Turn} (bs : Indexed Block) (a : Assembler) → Grows t u → Tracks bs a t → Tracks bs a u
Tracks-Grows bs a g k = record {
  ends = g.ends ∙ k.ends;
  blocks = All-map bs (λ e h. IsOpen-Grows e.1 g h) k.blocks;
  calls = AreKnown-Grows a g k.calls;
}

abbrev pub Agrees : DecodeState → Turn → Type 0
Agrees s t = Tracks s.blocks s.assembler t

pub Accepts-Follows :
    (es : List LlmEvent) (s : DecodeState) (t : Turn)
    → Agrees s t
    → Accepts es t
    → Follows Agrees t (es, s)
Accepts-Follows es s t k (u, passed, g) = (u, passed, g, Tracks-Grows s.blocks s.assembler g k)

pub nothing-Follows : (s : DecodeState) (t : Turn) → Agrees s t → Follows Agrees t ([], s)
nothing-Follows s t k = Accepts-Follows [] s t k (Accepts-nil t)

put-Tracks :
    (index : ℕ) (b : Block) (bs : Indexed Block) (a : Assembler) (u : Turn)
    → IsOpen u b
    → Tracks bs a u
    → Tracks (put_at index b bs) a u
put-Tracks index b bs a u o k = record {
  ends = k.ends;
  blocks = All-put_at (λ x. IsOpen u x) index b bs o k.blocks;
  calls = k.calls;
}

-- A block that the events start is put under its index.
module _ (index : ℕ) (bs : Indexed Block) (a : Assembler) (t : Turn) (k : Tracks bs a t)
    (id : String) where
  starts_text :
      (u : Turn) × (consume (text_start id ∷ []) t ≡ fine u)
      × Grows t u
      × Tracks (put_at index (Block.text id) bs) a u
  starts_text =
      let (u, passed, g, now) = text_start-passes t k.ends id in
      (u, passed, g, put-Tracks index (Block.text id) bs a u now (Tracks-Grows bs a g k))

  starts_reasoning :
      (u : Turn) × (consume (reasoning_start id ∷ []) t ≡ fine u)
      × Grows t u
      × Tracks (put_at index (reasoning id) bs) a u
  starts_reasoning =
      let (u, passed, g, now) = reasoning_start-passes t k.ends id in
      (u, passed, g, put-Tracks index (reasoning id) bs a u now (Tracks-Grows bs a g k))

  starts_tool :
      (name : String)
      → (u : Turn) × (consume (tool_input_start id name ∷ []) t ≡ fine u)
        × Grows t u
        × Tracks (put_at index (tool id) bs) (start id name a).1 u
  starts_tool name =
      let (u, passed, g, now) = tool_input_start-passes t k.ends id name in
      let later = put-Tracks index (tool id) bs a u now (Tracks-Grows bs a g k) in
      (
        u,
        passed,
        g,
        record {
          ends = later.ends;
          blocks = later.blocks;
          calls = start-AreKnown u id name a now later.calls;
        },
      )

pub start_wire-Follows :
    (index : ℕ) (b : WireBlock) (s : DecodeState) (t : Turn)
    → Agrees s t
    → Follows Agrees t (start_wire index b s)
unfolding start_wire start
start_wire-Follows index b s t k =
    if_both (Follows Agrees t) (is_some_text "text" b.block_type)
      (starts_text index s.blocks s.assembler t k ("text-" & decimal (s.text_count + 1)))
      (if_both (Follows Agrees t) (is_some_text "thinking" b.block_type)
        (starts_reasoning index s.blocks s.assembler t k
          ("reasoning-" & decimal (s.reasoning_count + 1)))
        (if_both (Follows Agrees t) (is_some_text "tool_use" b.block_type)
          (starts_tool index s.blocks s.assembler t k
            (or_else b.id ("call-" & decimal (s.tool_count + 1))) (or_else b.name ""))
          (nothing-Follows s t k)))

pub delta_of-Follows :
    (o : Option Block) (d : WireDelta) (s : DecodeState) (t : Turn)
    → ((b : Block) → o ≡ some b → IsOpen t b)
    → Agrees s t
    → Follows Agrees t (delta_of o d s)
unfolding delta_of append
delta_of-Follows none d s t o k = nothing-Follows s t k
delta_of-Follows (some (Block.text id)) d s t o k = elim (Option-cases d.text) [
  | inl e ↦ rw e (nothing-Follows s t k)
  | inr (x, e) ↦ rw e (
      if_both (λ es. Follows Agrees t (es, s)) (is_some_text "text_delta" d.delta_type)
        (Accepts-Follows (text_delta id x ∷ []) s t k
          (Accepts-text_delta t k.ends id x (o (Block.text id) refl)))
        (nothing-Follows s t k))
]
delta_of-Follows (some (reasoning id)) d s t o k = elim (Option-cases d.thinking) [
  | inl e ↦ rw e (nothing-Follows s t k)
  | inr (x, e) ↦ rw e (
      if_both (λ es. Follows Agrees t (es, s)) (is_some_text "thinking_delta" d.delta_type)
        (Accepts-Follows (reasoning_delta id x ∷ []) s t k
          (Accepts-reasoning_delta t k.ends id x (o (reasoning id) refl)))
        (nothing-Follows s t k))
]
delta_of-Follows (some (tool id)) d s t o k = elim (Option-cases d.partial_json) [
  | inl e ↦ rw e (nothing-Follows s t k)
  | inr (x, e) ↦
      let (u, passed, g) = Accepts-tool_input_delta t k.ends id x (o (tool id) refl) in
      let later = Tracks-Grows s.blocks s.assembler g k in
      rw e (
        if_both (Follows Agrees t)
          (is_some_text "input_json_delta" d.delta_type && not (str_eq x ""))
          (
            u,
            passed,
            g,
            record {
              ends = later.ends;
              blocks = later.blocks;
              calls = append-AreKnown u id x s.assembler later.calls;
            },
          )
          (nothing-Follows s t k))
]
