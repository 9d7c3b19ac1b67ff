-- ===== src/Children/Tests.antt =====
-- The registry of a child that explores.
use swain.Common.{
  ℕ, suc, String, true, false, none, some, [], ◌∷◌, ◌≡◌, refl, Dict, lookup, map, insert,
}
use swain.Llms.Messages.{Json}
use swain.Session.{Session, create_session_state}
use swain.Tasks.{explore}
use swain.Agent.Tools.{Tool, parsed, success, failure, ToolError}
use swain.Children.Commands.{names, is_read_only_command, is_smuggler}
use swain.Children.Commands.Laws.{has_char, is_read_only_command-bare}
use swain.Children.{read_only_bash, make_child_tool_registry, definition_tools, global_child_deny}
use swain.Children.Laws.{IsAdmitted, make_child_tool_registry-IsAdmitted, child_bash-denied}

abbrev tool : String → Tool ℕ
tool name = record {
  name = name;
  description = "";
  read_only = false;
  record_duration = false;
  decode = λ j. parsed j;
  validate = λ j. parsed j;
  call = λ j s w. (success j, suc w);
}

abbrev parent : Dict (Tool ℕ)
parent =
    ("Read", tool "Read")
    ∷ ("Write", tool "Write")
    ∷ ("Agent", tool "Agent")
    ∷ ("Bash", tool "Bash")
    ∷ []

abbrev command_of : Json → String
command_of none = ""
command_of (some s) = s

abbrev session : Session
session = create_session_state "s" (record {
  session_id = none;
  working_directory = "/w";
  model = record { id = "m"; provider = "p"; limits = none; warn_on_reasoning_loss = none };
  model_ref = none;
  request_options = none;
  past_models = none;
  permission_mode = none;
  current_date = "";
  messages = none;
  compaction = none;
  tool_results = none;
})

explorer_tools :
    map (λ e. e.0) (make_child_tool_registry command_of explore parent false) ≡ "Read" ∷ "Bash" ∷ []
unfolding make_child_tool_registry insert
explorer_tools = refl

is_read_only_command-bare_example : has_char is_smuggler "ls -l | wc" ≡ false
unfolding is_read_only_command
is_read_only_command-bare_example = is_read_only_command-bare "ls -l | wc" refl refl

make_child_tool_registry-IsAdmitted_example :
    IsAdmitted command_of true (definition_tools explore) parent "Read" (tool "Read")
    × (names global_child_deny "Read" ≡ false)
unfolding make_child_tool_registry insert lookup
make_child_tool_registry-IsAdmitted_example =
    make_child_tool_registry-IsAdmitted command_of explore parent false "Read" (tool "Read") refl

child_bash-denied_example :
    (e : ToolError) × ((read_only_bash command_of (tool "Bash")).call (some "cat a > b") session 0
      ≡ (failure e, 0))
unfolding make_child_tool_registry insert lookup
child_bash-denied_example =
    child_bash-denied command_of explore parent false (read_only_bash command_of (tool "Bash"))
      (some "cat a > b") session 0 refl refl refl refl
