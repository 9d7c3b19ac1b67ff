-- ===== src/Context/Accounting.antt =====
-- packages/core/src/context/accounting.ts: how full the model's context is.
pub mod Laws
use swain.Common.{
  ℕ, ◌+◌, ◌-◌, ◌*◌, ◌/◌, min, String, Bool, true, false, Option, none, some, List, [], ◌∷◌, leb,
  if◌then◌else◌, length, drop,
}
use swain.Llms.Messages.{Usage, Message}
use swain.Llms.Client.{LlmTool}
use swain.Session.{Session, Model, Limits, ContextUsage}
use swain.Context.Tokens.{TokenCounter}
use swain.Context.Projection.{derive_context}

abbrev pub output_reserve_cap : ℕ
output_reserve_cap = 20000

unfoldable pub max_output_tokens : Model → Option ℕ
max_output_tokens m = elim m.limits [ none ↦ none | some l ↦ l.max_output_tokens ]

unfoldable pub context_window : Model → Option ℕ
context_window m = elim m.limits [ none ↦ none | some l ↦ l.context_window ]

unfoldable pub output_reserve : Model → ℕ
unfolding max_output_tokens
output_reserve m =
    min (elim (max_output_tokens m) [ none ↦ output_reserve_cap | some n ↦ n ]) output_reserve_cap

unfoldable pub effective_context_window : Model → Option ℕ
unfolding context_window output_reserve
effective_context_window m = elim (context_window m) [
  | none ↦ none
  | some w ↦ some (w - min (output_reserve m) (w / 2))
]

unfoldable pub active_context_tokens : Usage → ℕ
active_context_tokens u = elim u.active_context_tokens [
  | none ↦ u.input_tokens + u.output_tokens
  | some n ↦ n
]

unfoldable pub record_context_usage : Session → Usage → Session
unfolding active_context_tokens
record_context_usage s u = record s {
  context_usage = some (record {
    active_context_tokens = active_context_tokens u;
    measured_at_message_index = length s.messages;
  });
}

pub record RequestShape : Type 0 where
  pub system : Option String
  pub tools : List LlmTool

estimate_tools : TokenCounter → List LlmTool → ℕ
estimate_tools c [] = 0
estimate_tools c (t ∷ ts) = c.estimate_json t.definition + estimate_tools c ts

unfoldable pub estimate_shape : RequestShape → TokenCounter → ℕ
unfolding estimate_tools
estimate_shape shape c =
    (elim shape.system [ none ↦ 0 | some t ↦ c.estimate_text t ]) + estimate_tools c shape.tools

estimate_locally : Session → RequestShape → TokenCounter → ℕ
unfolding estimate_shape
estimate_locally s shape c =
    estimate_shape shape c + c.estimate_messages (derive_context s.messages).messages

-- The snapshot with what came since, or all of the request where there is no valid snapshot.
estimate_since : Session → RequestShape → TokenCounter → Option ContextUsage → ℕ
unfolding estimate_locally
estimate_since s shape c none = estimate_locally s shape c
estimate_since s shape c (some u) =
    if leb u.measured_at_message_index (length s.messages)
    then u.active_context_tokens + c.estimate_messages (drop u.measured_at_message_index s.messages)
    else estimate_locally s shape c

unfoldable pub estimate_current_context_tokens : Session → RequestShape → TokenCounter → ℕ
unfolding estimate_since
estimate_current_context_tokens s shape c = estimate_since s shape c s.context_usage

-- `estimate >= eff * 0.9`, for whole numbers.
unfoldable pub should_auto_compact : Session → RequestShape → TokenCounter → Bool
unfolding effective_context_window estimate_current_context_tokens
should_auto_compact s shape c =
    if s.compaction.auto_enabled
    then elim (effective_context_window s.system_context.model) [
      | none ↦ false
      | some eff ↦ leb (eff * 9) (estimate_current_context_tokens s shape c * 10)
    ]
    else false
