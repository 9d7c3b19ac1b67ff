-- ===== src/Context/Projection.antt =====
-- `deriveContext` of packages/core/src/context/compaction.ts: the messages of the history that the
-- model is sent. `none` in `source_index` stands for the source's -1.
pub mod Laws
use swain.Common.{
  ℕ, zero, suc, ◌+◌, Bool, true, false, Option, none, some, List, [], ◌∷◌, if◌then◌else◌, get_elem?,
  drop,
}
use swain.Llms.Messages.{
  Compaction, UserContent, text, tool_result, model_switch, compaction, Message, user, assistant,
}

find_compaction : List UserContent → Option Compaction
find_compaction [] = none
find_compaction (compaction c ∷ bs) = some c
find_compaction (_ ∷ bs) = find_compaction bs

unfoldable pub compaction_block : Message → Option Compaction
unfolding find_compaction
compaction_block (user m) = find_compaction m.content
compaction_block (assistant m) = none

unfoldable pub is_marker : Message → Bool
unfolding compaction_block
is_marker m = elim (compaction_block m) [ none ↦ false | some _ ↦ true ]

-- The loop for the index of the last marker, from index `i` on.
unfoldable pub last_marker : ℕ → Option ℕ → List Message → Option ℕ
last_marker i last [] = last
last_marker i last (m ∷ ms) = last_marker (i + 1) (if is_marker m then some i else last) ms

pub record Projection : Type 0 where
  pub messages : List Message
  pub source_index : List (Option ℕ)

-- `history.map((_, i) => i)`
unfoldable pub indices : ℕ → List Message → List (Option ℕ)
indices i [] = []
indices i (m ∷ ms) = some i ∷ indices (i + 1) ms

-- The loop over the tail: messages that are no markers, with their indices.
unfoldable pub kept : List Message → List Message
kept [] = []
kept (m ∷ ms) = if is_marker m then kept ms else m ∷ kept ms

unfoldable pub kept_indices : ℕ → List Message → List (Option ℕ)
kept_indices i [] = []
kept_indices i (m ∷ ms) =
    if is_marker m then kept_indices (i + 1) ms else some i ∷ kept_indices (i + 1) ms

abbrev tail_start_of : ℕ → Option Compaction → ℕ
tail_start_of last none = last + 1
tail_start_of last (some c) = elim c.context_tail_start [ none ↦ last + 1 | some i ↦ i ]

-- The projection behind the marker at index `last`. The index is always in range.
unfoldable pub project : ℕ → List Message → Option Message → Projection
unfolding kept kept_indices
project last history none = record { messages = []; source_index = [] }
project last history (some marker) =
    let start = tail_start_of last (compaction_block marker) in
    record {
      messages = marker ∷ kept (drop start history);
      source_index = none ∷ kept_indices start (drop start history);
    }

unfoldable pub derive_context : List Message → Projection
unfolding last_marker project indices
derive_context history = elim (last_marker 0 none history) [
  | none ↦ record { messages = history; source_index = indices 0 history }
  | some last ↦ project last history (get_elem? history last)
]
