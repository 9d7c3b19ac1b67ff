-- ===== src/Llms/Messages.antt =====
-- packages/llms/src/schema/messages.ts: the transcript's messages.
--
-- A value of an unknown type (a tool's input, a JSON result) is held as the text that
-- `JSON.stringify` gives for it, `none` where that is undefined.
use Prim.Native.String.{◌++◌ as join_text}
use swain.Common.{
  ℕ, String, Bool, Option, none, some, List, zero, suc, ◌/◌, ◌%◌, if◌then◌else◌, str_eq, ltb,
}

abbrev pub Json : Type 0
Json = Option String

pub record Usage : Type 0 where
  pub input_tokens : ℕ
  pub output_tokens : ℕ
  pub active_context_tokens : Option ℕ

pub record ToolCall : Type 0 where
  pub tool_call_id : String
  pub name : String
  pub input : Json

pub data ToolResultValue : Type 0 where
  text : (value : String) → ToolResultValue
  json : (value : Json) → ToolResultValue

pub record ToolResult : Type 0 where
  pub tool_call_id : String
  pub name : Option String
  pub result : ToolResultValue
  pub is_error : Option Bool
  pub duration_ms : Option ℕ

pub record ModelRef : Type 0 where
  pub provider : String
  pub model_id : String
  pub variant : Option String

pub data Requester : Type 0 where
  router user : Requester

pub record ModelSwitch : Type 0 where
  pub from : ModelRef
  pub to : ModelRef
  pub reason : String
  pub requested_by : Requester

pub data CompactionReason : Type 0 where
  auto manual overflow : CompactionReason

pub record Compaction : Type 0 where
  pub reason : CompactionReason
  pub compacted_messages : ℕ
  pub summary : String
  pub context_tail_start : Option ℕ

pub data UserContent : Type 0 where
  text : String → UserContent
  tool_result : ToolResult → UserContent
  model_switch : ModelSwitch → UserContent
  compaction : Compaction → UserContent

pub data AssistantContent : Type 0 where
  text : String → AssistantContent
  reasoning : String → AssistantContent
  tool_call : ToolCall → AssistantContent

pub record Timing : Type 0 where
  pub created_at : String
  pub response_duration_ms : Option ℕ
  pub turn_duration_ms : Option ℕ

pub record UserMessage : Type 0 where
  pub content : List UserContent
  pub is_meta : Bool
  pub timing : Timing

pub record AssistantMessage : Type 0 where
  pub content : List AssistantContent
  pub usage : Option Usage
  pub timing : Timing

pub data Message : Type 0 where
  user : UserMessage → Message
  assistant : AssistantMessage → Message

infixr 65 ◌&◌
abbrev pub ◌&◌ : String → String → String
a & b = join_text a b

-- `provider:modelId[:variant]`; an empty variant is as none.
unfoldable pub switch_ref_key : ModelRef → String
switch_ref_key ref = elim ref.variant [
  | none ↦ ref.provider & ":" & ref.model_id
  | some v ↦
      if str_eq v ""
      then ref.provider & ":" & ref.model_id
      else ref.provider & ":" & ref.model_id & ":" & v
]

unfoldable pub render_model_switch : ModelSwitch → String
unfolding switch_ref_key
render_model_switch block =
    "[Model switched from "
    & switch_ref_key block.from
    & " to "
    & switch_ref_key block.to
    & " — "
    & block.reason
    & "]"

digit : ℕ → String
digit zero = "0"
digit (suc zero) = "1"
digit (suc (suc zero)) = "2"
digit (suc (suc (suc zero))) = "3"
digit (suc (suc (suc (suc zero)))) = "4"
digit (suc (suc (suc (suc (suc zero))))) = "5"
digit (suc (suc (suc (suc (suc (suc zero)))))) = "6"
digit (suc (suc (suc (suc (suc (suc (suc zero))))))) = "7"
digit (suc (suc (suc (suc (suc (suc (suc (suc zero)))))))) = "8"
digit _ = "9"

-- The decimal digits of a number below 10 to the power of the fuel.
decimal_from : ℕ → ℕ → String
decimal_from zero n = ""
decimal_from (suc fuel) n =
    let front = decimal_from fuel (n / 10) & digit (n % 10) in if ltb n 10 then digit n else front

-- A count in a template text. Numbers of up to 20 digits, which hold every safe integer.
unfoldable pub decimal : ℕ → String
unfolding decimal_from digit
decimal n = decimal_from 20 n

unfoldable pub render_compaction : Compaction → String
unfolding decimal
render_compaction block =
    "[Conversation compacted: "
    & decimal block.compacted_messages
    & " earlier messages summarized.]\n<summary>\n"
    & block.summary
    & "\n</summary>"
