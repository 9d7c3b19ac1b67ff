-- ===== src/Children.antt =====
-- packages/core/src/subagents: what a child agent may do. Of a definition of
-- subagents/definitions.ts the model keeps the type, the tools and the system prompt, which is a
-- parameter; the texts that describe it to the parent are left out.
pub mod Commands
pub mod Laws
mod Tests
use swain.Common.{
  String, Bool, true, false, not, ◌&&◌, ◌||◌, Option, none, some, List, [], ◌∷◌, if◌then◌else◌,
  str_eq, filter, any, Dict, insert,
}
use swain.Llms.Messages.{Json, ◌&◌}
use swain.Session.{Session}
use swain.Tasks.{AgentType, explore, plan, general_purpose}
use swain.Agent.Tools.{Tool, Attempt, failure, tool_error, denied}
use swain.Children.Commands.{is_read_only_command, names}

abbrev read_only_tools : List String
read_only_tools = "Read" ∷ "Glob" ∷ "Grep" ∷ "Bash" ∷ []

-- The tools of the definition of a type.
abbrev pub definition_tools : AgentType → List String
definition_tools explore = read_only_tools
definition_tools plan = read_only_tools
definition_tools general_purpose =
    "Read" ∷ "Write" ∷ "Edit" ∷ "Glob" ∷ "Grep" ∷ "Bash" ∷ "WebSearch" ∷ "WebFetch" ∷ []

abbrev pub global_child_deny : List String
global_child_deny =
    "Agent" ∷ "Ask" ∷ "SwitchModel" ∷ "TaskCreate" ∷ "TaskList" ∷ "TaskGet" ∷ "TaskUpdate" ∷ []

abbrev pub mutating_tools : List String
mutating_tools = "Write" ∷ "Edit" ∷ []

abbrev pub is_read_only : AgentType → Bool → Bool
is_read_only general_purpose isolated = not isolated
is_read_only _ isolated = true

-- `command_of` is `(input as { command: string }).command`.
module _ {W : Type 0} (command_of : Json → String) where
  guarded_call : Tool W → Json → Session → W → Attempt Json × W
  unfolding is_read_only_command
  guarded_call bash input s w =
      let command = command_of input in
      let ran = bash.call input s w in
      if is_read_only_command command then ran else (
        tool_error bash denied
            ("Read-only subagent can only run allowlisted inspection commands, not: " & command),
        w,
      )

  unfoldable pub read_only_bash : Tool W → Tool W
  unfolding guarded_call
  read_only_bash bash = record bash {
    description =
        bash.description
        & " Read-only subset: only allowlisted inspection commands (ls, grep, cat, git log/diff/status, …) are permitted.";
    read_only = true;
    record_duration = false;
    call = λ input s w. guarded_call bash input s w;
  }

  -- One round of the loop over the parent's tools.
  unfoldable pub admit : Bool → List String → String → Tool W → Dict (Tool W) → Dict (Tool W)
  unfolding read_only_bash
  admit read_only allow name tool registry =
      if not (names allow name)
      then registry
      else if read_only && names mutating_tools name
      then registry
      else insert name (if read_only && str_eq name "Bash" then read_only_bash tool else tool)
          registry

  pub admit_all : Bool → List String → Dict (Tool W) → Dict (Tool W) → Dict (Tool W)
  unfolding admit
  admit_all read_only allow [] registry = registry
  admit_all read_only allow ((name, tool) ∷ tools) registry =
      admit_all read_only allow tools (admit read_only allow name tool registry)

  unfoldable pub make_child_tool_registry : AgentType → Dict (Tool W) → Bool → Dict (Tool W)
  unfolding admit_all
  make_child_tool_registry agent_type parent_tools isolated =
      let allow =
        filter (λ name. not (names global_child_deny name)) (definition_tools agent_type) in
      admit_all (is_read_only agent_type isolated) allow parent_tools []
