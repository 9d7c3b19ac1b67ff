-- ===== src/Context/Pairing.antt =====
-- `isValidlyPaired` of packages/core/src/context/compaction.ts: every tool call is answered in the
-- next message, and every tool result answers a call of the message before.
pub mod Laws
use swain.Common.{
  String, Bool, true, false, Option, none, some, List, [], ◌∷◌, ◌&&◌, ◌||◌, all, any, str_eq,
}
use swain.Llms.Messages.{
  UserContent, text, tool_result, model_switch, compaction, AssistantContent, reasoning, tool_call,
  Message, user, assistant,
}

calls_of : List AssistantContent → List String
calls_of [] = []
calls_of (tool_call c ∷ bs) = c.tool_call_id ∷ calls_of bs
calls_of (_ ∷ bs) = calls_of bs

results_of : List UserContent → List String
results_of [] = []
results_of (tool_result r ∷ bs) = r.tool_call_id ∷ results_of bs
results_of (_ ∷ bs) = results_of bs

unfoldable pub tool_call_ids : Message → List String
unfolding calls_of
tool_call_ids (user m) = []
tool_call_ids (assistant m) = calls_of m.content

unfoldable pub tool_result_ids : Message → List String
unfolding results_of
tool_result_ids (user m) = results_of m.content
tool_result_ids (assistant m) = []

abbrev pub is_user : Message → Bool
is_user (user _) = true
is_user (assistant _) = false

abbrev pub is_assistant : Message → Bool
is_assistant (user _) = false
is_assistant (assistant _) = true

abbrev pub has_id : List String → String → Bool
has_id ids id = any (λ i. str_eq i id) ids

abbrev pub includes : List String → List String → Bool
includes within ids = all (has_id within) ids

-- The checks of one message with its neighbours; none are made of a message without ids.
unfoldable pub calls_answered : List String → Option Message → Bool
calls_answered [] next = true
calls_answered (id ∷ ids) none = false
calls_answered (id ∷ ids) (some next) = is_user next && includes (tool_result_ids next) (id ∷ ids)

unfoldable pub results_asked : List String → Option Message → Bool
results_asked [] previous = true
results_asked (id ∷ ids) none = false
results_asked (id ∷ ids) (some previous) =
    is_assistant previous && includes (tool_call_ids previous) (id ∷ ids)

abbrev pub first : List Message → Option Message
first [] = none
first (m ∷ ms) = some m

-- The loop, with the message before.
unfoldable pub paired_from : Option Message → List Message → Bool
unfolding calls_answered results_asked
paired_from previous [] = true
paired_from previous (m ∷ ms) =
    calls_answered (tool_call_ids m) (first ms)
    && results_asked (tool_result_ids m) previous
    && paired_from (some m) ms

unfoldable pub is_validly_paired : List Message → Bool
unfolding paired_from
is_validly_paired messages = paired_from none messages
