-- ===== src/Agent/Tools.antt =====
-- `callTool` of packages/core/src/tool.ts and packages/core/src/tools/results.ts: one tool call of
-- the model, executed. A tool's `call` acts on the world `W` outside the session.
pub mod Plan
use swain.Common.{String, Bool, true, false, not, ◌&&◌, none, some, if◌then◌else◌, Dict, lookup}
use swain.Llms.Messages.{Json, ToolCall, ToolResult, ToolResultValue, json, ◌&◌}
use swain.Session.{Session, PermissionMode, plan}

pub data ToolErrorReason : Type 0 where
  unknown_tool invalid_input invalid_output denied : ToolErrorReason
  not_found precondition_failed unsupported execution_failed : ToolErrorReason

pub record ToolError : Type 0 where
  pub tool : String
  pub reason : ToolErrorReason
  pub message : String

pub data Attempt {ℓ} (A : Type ℓ) : Type ℓ where
  success : A → Attempt A
  failure : ToolError → Attempt A

-- The schemas are given by what decoding an input and validating an output answer: the value, or
-- the text of the parse error.
pub data Parsed : Type 0 where
  parsed : Json → Parsed
  parse_error : String → Parsed

pub record Tool (W : Type 0) : Type 0 where
  pub name : String
  pub description : String
  pub read_only : Bool
  pub record_duration : Bool
  pub decode : Json → Parsed
  pub validate : Json → Parsed
  pub call : Json → Session → W → Attempt Json × W

abbrev pub success_result : ToolCall → Json → ToolResult
success_result c value = record {
  tool_call_id = c.tool_call_id;
  name = some c.name;
  result = json value;
  is_error = none;
  duration_ms = none;
}

abbrev pub error_result : ToolCall → String → ToolResult
error_result c message = record {
  tool_call_id = c.tool_call_id;
  name = some c.name;
  result = ToolResultValue.text message;
  is_error = some true;
  duration_ms = none;
}

abbrev pub is_plan : PermissionMode → Bool
is_plan plan = true
is_plan _ = false

abbrev pub result_of : ToolCall → Attempt Json → ToolResult
result_of c (success value) = success_result c value
result_of c (failure e) = error_result c e.message

module _ {W : Type 0} where
  abbrev pub tool_error : Tool W → ToolErrorReason → String → Attempt Json
  tool_error tool reason message =
      failure (record { tool = tool.name; reason = reason; message = message })

  checked_output : Tool W → Parsed → Attempt Json
  checked_output tool (parsed value) = success value
  checked_output tool (parse_error text) = tool_error tool invalid_output text

  validated : Tool W → Attempt Json × W → Attempt Json × W
  unfolding checked_output
  validated tool (failure e, w) = (failure e, w)
  validated tool (success output, w) = (checked_output tool (tool.validate output), w)

  -- Behind the decoding: the gate of the plan mode, the call, and the check of its output.
  run_decoded : Tool W → Session → Parsed → W → Attempt Json × W
  unfolding validated
  run_decoded tool s (parse_error text) w = (tool_error tool invalid_input text, w)
  run_decoded tool s (parsed input) w =
      if is_plan s.system_context.permission_mode && not tool.read_only
      then (tool_error tool denied ("Plan mode denies the mutating tool \"" & tool.name & "\"."), w)
      else validated tool (tool.call input s w)

  unfoldable pub run_tool : Dict (Tool W) → Session → ToolCall → W → Attempt Json × W
  unfolding run_decoded
  run_tool registry s c w = elim (lookup c.name registry) [
    | none ↦ (
      failure
          (record { tool = c.name; reason = unknown_tool; message = "Unknown tool: " & c.name }),
      w,
    )
    | some tool ↦ run_decoded tool s (tool.decode c.input) w
  ]

  unfoldable pub call_tool : Dict (Tool W) → Session → ToolCall → W → ToolResult × W
  unfolding run_tool
  call_tool registry s c w =
      let (attempt, w') = run_tool registry s c w in (result_of c attempt, w')
