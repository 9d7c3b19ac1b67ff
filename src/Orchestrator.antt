-- ===== src/Orchestrator.antt =====
-- packages/core/src/orchestrator.ts: the child agents that run beside their parent.
--
-- The fiber of a child is its entry in `active`, with the point that its finalizer has come to. A
-- spawn is one step, as one parent spawns and its tool calls run one after another. What git, the
-- child's run and the clock answer is given to each operation. The trace sink and logging are left
-- out.
pub mod Fiber
pub mod Recover
pub mod Steps
pub mod Apart
pub mod Sound
pub mod Finalize
mod Tests
use swain.Common.{
  ℕ, ◌+◌, suc, String, Bool, true, false, Option, none, some, List, [], ◌∷◌, ◌++◌, if◌then◌else◌,
  str_eq, trim, leb, length, Dict, insert, remove, lookup, or_else, first_of,
}
use swain.Llms.Messages.{
  Json, ModelRef, Message, user, assistant, UserContent, AssistantContent, ◌&◌, decimal,
}
use swain.Session.{Session, Model, RequestOptions, create_session_state}
use swain.Tasks.{
  AgentType, explore, plan, general_purpose, Task, TaskError, not_found, already_owned, blocked,
  platform_error, ok, err, Outcome, Store, Env, ClaimTaskInput, FinishTaskInput, claim_task,
  Terminal, done, broken, finish,
}
use swain.Agent.Tools.{
  Tool, ToolError, ToolErrorReason, Attempt, success, failure, precondition_failed,
  execution_failed,
}
use swain.Agent.State.{user_message}
use swain.Children.{make_child_tool_registry}

pub record Worktree : Type 0 where
  pub path : String
  pub branch : String

pub record Cleanup : Type 0 where
  pub retained : Bool
  pub path : Option String
  pub branch : Option String

pub data SubagentEvent : Type 0 where
  subagent_start : (agent_id task_id : String) → AgentType → (description : String) → SubagentEvent
  subagent_progress :
      (agent_id task_id last_tool : String) → (input : Json) → (tool_uses : ℕ) → SubagentEvent
  subagent_complete : (agent_id task_id result : String) → (path : Option String) → SubagentEvent
  subagent_failed : (agent_id task_id error : String) → SubagentEvent

pub record SpawnInput : Type 0 where
  pub description : String
  pub prompt : String
  pub agent_type : AgentType
  pub model : Option Model
  pub request_options : Option RequestOptions
  pub model_ref : Option ModelRef
  pub task_id : Option String

pub record SpawnResult : Type 0 where
  pub agent_id : String
  pub task_id : String
  pub agent_type : AgentType

pub record ParentRunContext (W : Type 0) : Type 0 where
  pub session : Session
  pub tools : Dict (Tool W)

-- What a spawn draws and is answered: the agent's UUID, the worktree that git makes, the environment
-- of the claim, and the time of the first message.
pub record SpawnEnv : Type 0 where
  pub agent_id : String
  pub worktree : Attempt Worktree
  pub task_env : Env
  pub now : String

-- How far the finalizer of a child has come.
pub data Stage : Type 0 where
  running : Stage
  settled : Terminal → Cleanup → Stage
  announced rung : Stage

pub record Child (W : Type 0) : Type 0 where
  pub agent_id : String
  pub task_id : String
  pub agent_type : AgentType
  pub session : Session
  pub registry : Dict (Tool W)
  pub worktree : Option Worktree
  pub tool_uses : ℕ
  pub stage : Stage

pub record Orchestra (W : Type 0) : Type 0 where
  pub max : ℕ
  pub store : Store
  pub active : Dict (Child W)
  pub events : List SubagentEvent
  pub completions : ℕ

abbrev pub default_max_concurrent : ℕ
default_max_concurrent = 4

abbrev pub make_orchestrator : {W : Type 0} → Option ℕ → Store → Orchestra W
make_orchestrator max store = record {
  max = or_else max default_max_concurrent;
  store = store;
  active = [];
  events = [];
  completions = 0;
}

-- The last assistant message's texts, joined and trimmed.
text_of : List AssistantContent → String
text_of [] = ""
text_of (AssistantContent.text t ∷ bs) = t & text_of bs
text_of (_ ∷ bs) = text_of bs

last_text : String → List Message → String
unfolding text_of trim
last_text found [] = found
last_text found (user m ∷ ms) = last_text found ms
last_text found (assistant m ∷ ms) = last_text (trim (text_of m.content)) ms

unfoldable pub final_assistant_text : Session → String
unfolding last_text
final_assistant_text s = last_text "" s.messages

abbrev pub reason_of : TaskError → ToolErrorReason
reason_of (not_found id) = ToolErrorReason.not_found
reason_of platform_error = execution_failed
reason_of _ = precondition_failed

abbrev pub remove_key {ℓ} : {V : Type ℓ} → String → Dict V → Dict V
remove_key k m = remove k m

abbrev pub path_of : Option Worktree → Option String
path_of none = none
path_of (some w) = some w.path

abbrev pub branch_of : Option Worktree → Option String
branch_of none = none
branch_of (some w) = some w.branch

abbrev pub is_made {ℓ} : {A : Type ℓ} → Option A → Bool
is_made none = false
is_made (some a) = true

-- A child of the write-capable type gets the worktree or its error, the others get none.
abbrev pub worktree_for : AgentType → Attempt Worktree → Attempt (Option Worktree)
worktree_for general_purpose (success w) = success (some w)
worktree_for general_purpose (failure e) = failure e
worktree_for _ made = success none

abbrev pub child_brief : (AgentType → String) → SpawnInput → String
child_brief system_prompt input =
    system_prompt input.agent_type
    & "\n\n## Assignment: "
    & input.description
    & "\n\n"
    & input.prompt

abbrev pub refusal : ToolErrorReason → String → Attempt SpawnResult
refusal reason message = failure (record { tool = "Agent"; reason = reason; message = message })

-- `system_prompt` is that of the definition of a type, `text_of_error` the message of a task error.
module _ {W : Type 0} (command_of : Json → String) (system_prompt : AgentType → String)
    (text_of_error : TaskError → String) where
  unfoldable pub child_session :
      ParentRunContext W → SpawnEnv → SpawnInput → Option Worktree → Session
  unfolding create_session_state
  child_session parent env input worktree =
      let context = parent.session.system_context in
      create_session_state "" (record {
        session_id = some (parent.session.session_id & ":" & env.agent_id);
        working_directory = or_else (path_of worktree) parent.session.working_directory;
        model = or_else input.model context.model;
        model_ref = some (or_else input.model_ref context.model_ref);
        request_options = some (or_else input.request_options context.request_options);
        past_models = none;
        permission_mode = some context.permission_mode;
        current_date = context.current_date;
        messages = some (
            user_message (UserContent.text (child_brief system_prompt input) ∷ []) false env.now
              none
            ∷ []);
        compaction = none;
        tool_results = none;
      })

  -- The part behind the claim: the child is registered.
  register :
      ParentRunContext W
      → SpawnEnv
      → SpawnInput
      → Option Worktree
      → Outcome Task × Store
      → Orchestra W
      → Attempt SpawnResult × Orchestra W
  unfolding child_session make_child_tool_registry
  register parent env input worktree (err e, store) o =
      (refusal (reason_of e) (text_of_error e), record o { store = store })
  register parent env input worktree (ok task, store) o =
      let child : Child W = record {
        agent_id = env.agent_id;
        task_id = task.id;
        agent_type = input.agent_type;
        session = child_session parent env input worktree;
        registry =
            make_child_tool_registry command_of input.agent_type parent.tools (is_made worktree);
        worktree = worktree;
        tool_uses = 0;
        stage = running;
      } in
      (
        success
            (record { agent_id = env.agent_id; task_id = task.id; agent_type = input.agent_type }),
        record o {
          store = store;
          active = insert env.agent_id child o.active;
          events =
              o.events
              ++ subagent_start env.agent_id task.id input.agent_type input.description ∷ [];
        },
      )

  delegate :
      ParentRunContext W
      → SpawnEnv
      → SpawnInput
      → Attempt (Option Worktree)
      → Orchestra W
      → Attempt SpawnResult × Orchestra W
  unfolding register
  delegate parent env input (failure e) o = (failure e, o)
  delegate parent env input (success worktree) o =
      let claim : ClaimTaskInput = record {
        task_id = input.task_id;
        owner = env.agent_id;
        agent_type = input.agent_type;
        subject = some input.description;
        description = some input.prompt;
        worktree_path = path_of worktree;
        worktree_branch = branch_of worktree;
      } in
      register parent env input worktree (claim_task env.task_env claim o.store) o

  unfoldable pub spawn :
      ParentRunContext W → SpawnEnv → SpawnInput → Orchestra W → Attempt SpawnResult × Orchestra W
  unfolding delegate
  spawn parent env input o =
      let delegated = delegate parent env input (worktree_for input.agent_type env.worktree) o in
      if leb o.max (length o.active)
      then (
        refusal precondition_failed (
            "Too many active subagents (max "
            & decimal o.max
            & "). Wait for one to finish before spawning more."),
        o,
      )
      else delegated
