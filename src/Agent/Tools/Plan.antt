-- ===== src/Agent/Tools/Plan.antt =====
-- The gate of the plan mode in `callTool`.
use swain.Common.{true, false, some, Dict, lookup, ◌≡◌, refl}
use swain.Llms.Messages.{ToolCall}
use swain.Session.{Session, plan}
use swain.Agent.Tools.{
  Tool, Parsed, parsed, parse_error, run_decoded, result_of, run_tool, call_tool,
}

module _ {W : Type 0} (tool : Tool W) (s : Session)
    (planned : s.system_context.permission_mode ≡ plan) (mutates : tool.read_only ≡ false) where
  run_decoded-plan : (p : Parsed) (w : W) → (run_decoded tool s p w).1 ≡ w
  unfolding run_decoded
  run_decoded-plan (parse_error text) w = refl
  run_decoded-plan (parsed input) w = rw (planned, mutates) refl

  run_decoded-IsError :
      (c : ToolCall) (p : Parsed) (w : W)
      → (result_of c (run_decoded tool s p w).0).is_error ≡ some true
  unfolding run_decoded
  run_decoded-IsError c (parse_error text) w = refl
  run_decoded-IsError c (parsed input) w = rw (planned, mutates) refl

  -- In plan mode a call of a tool that is not read-only never reaches the tool: the world is as it
  -- was, and the model is told of an error.
  pub call_tool-plan :
      (registry : Dict (Tool W)) (c : ToolCall) (w : W)
      → lookup c.name registry ≡ some tool
      → ((call_tool registry s c w).1 ≡ w) × ((call_tool registry s c w).0.is_error ≡ some true)
  unfolding call_tool run_tool
  call_tool-plan registry c w found =
      rw (found, run_tool)
        (run_decoded-plan (tool.decode c.input) w, run_decoded-IsError c (tool.decode c.input) w)
