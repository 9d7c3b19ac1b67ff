-- ===== src/Context/Tokens.antt =====
-- packages/core/src/context/token-counter.ts: the estimate of a message's tokens. A counter is
-- injected by its clients as its `estimateMessages` and its siblings.
use swain.Common.{ℕ, ◌+◌, ◌/◌, String, none, some, List, [], ◌∷◌, text_length}
use swain.Llms.Messages.{
  Json, ToolResultValue, json, UserContent, tool_result, model_switch, compaction, AssistantContent,
  reasoning, tool_call, Message, user, assistant, render_model_switch, render_compaction,
}

pub record TokenCounter : Type 0 where
  pub estimate_text : String → ℕ
  pub estimate_json : Json → ℕ
  pub estimate_message : Message → ℕ
  pub estimate_messages : List Message → ℕ

abbrev pub message_overhead : ℕ
message_overhead = 4

-- `Math.ceil(text.length / 4)`
unfoldable pub estimate_text : String → ℕ
unfolding text_length
estimate_text s = (text_length s + 3) / 4

unfoldable pub estimate_json : Json → ℕ
unfolding estimate_text
estimate_json none = 0
estimate_json (some s) = estimate_text s

estimate_result : ToolResultValue → ℕ
unfolding estimate_json
estimate_result (ToolResultValue.text s) = estimate_text s
estimate_result (json v) = estimate_json v

estimate_user : List UserContent → ℕ
unfolding estimate_result render_model_switch render_compaction
estimate_user [] = 0
estimate_user (UserContent.text s ∷ bs) = estimate_text s + estimate_user bs
estimate_user (tool_result r ∷ bs) = estimate_result r.result + estimate_user bs
estimate_user (model_switch b ∷ bs) = estimate_text (render_model_switch b) + estimate_user bs
estimate_user (compaction b ∷ bs) = estimate_text (render_compaction b) + estimate_user bs

estimate_assistant : List AssistantContent → ℕ
unfolding estimate_json
estimate_assistant [] = 0
estimate_assistant (AssistantContent.text s ∷ bs) = estimate_text s + estimate_assistant bs
estimate_assistant (reasoning s ∷ bs) = estimate_text s + estimate_assistant bs
estimate_assistant (tool_call c ∷ bs) =
    estimate_text c.name + estimate_json c.input + estimate_assistant bs

unfoldable pub estimate_message : Message → ℕ
unfolding estimate_user estimate_assistant
estimate_message (user m) = message_overhead + estimate_user m.content
estimate_message (assistant m) = message_overhead + estimate_assistant m.content

unfoldable pub estimate_messages : List Message → ℕ
unfolding estimate_message
estimate_messages [] = 0
estimate_messages (m ∷ ms) = estimate_message m + estimate_messages ms

abbrev pub default_token_counter : TokenCounter
default_token_counter = record {
  estimate_text = estimate_text;
  estimate_json = estimate_json;
  estimate_message = estimate_message;
  estimate_messages = estimate_messages;
}
