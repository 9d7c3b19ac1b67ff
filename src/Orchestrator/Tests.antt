-- ===== src/Orchestrator/Tests.antt =====
-- One child that explores, and instances of the theorems.
use mathlib.Core.List.{Memᴰ}
use swain.Common.{ℕ, String, true, false, none, some, [], ◌∷◌, ◌++◌, ◌≡◌, refl, lookup, remove}
use swain.Llms.Messages.{Json}
use swain.Session.{Session, ask, create_session_state}
use swain.Tasks.{
  AgentType, explore, TaskError, Task, Store, Env, done, FinishTaskInput,
  pending_parent_notifications, in_progress,
}
use swain.Agent.Tools.{failure, execution_failed}
use swain.Orchestrator.{
  SubagentEvent, Orchestra, ParentRunContext, SpawnEnv, SpawnInput, Cleanup, Child, running,
  make_orchestrator, spawn,
}
use swain.Orchestrator.Fiber.{finalize}
use swain.Tasks.Finish.{IsFinished}
use swain.Orchestrator.Steps.{spawns, here, next}
use swain.Orchestrator.Apart.{IsSound}
use swain.Orchestrator.Sound.{Reach-IsSound}
use swain.Orchestrator.Finalize.{Retains, Tells, finalize-effects}

abbrev session : Session
session = create_session_state "s" (record {
  session_id = none;
  working_directory = "/w";
  model = record { id = "m"; provider = "p"; limits = none; warn_on_reasoning_loss = none };
  model_ref = none;
  request_options = none;
  past_models = none;
  permission_mode = some ask;
  current_date = "d";
  messages = none;
  compaction = none;
  tool_results = none;
})

abbrev parent : ParentRunContext ℕ
parent = record { session = session; tools = [] }

abbrev env : Env
env = record { uuid = "task"; now = "now"; written = true; stringify = λ ms. "[]" }

abbrev met : SpawnEnv
met = record {
  agent_id = "agent";
  worktree = failure (record { tool = "Agent"; reason = execution_failed; message = "" });
  task_env = env;
  now = "now";
}

abbrev input : SpawnInput
input = record {
  description = "look";
  prompt = "find it";
  agent_type = explore;
  model = none;
  request_options = none;
  model_ref = none;
  task_id = none;
}

abbrev empty : Store
empty = record { tasks = []; file = none }

abbrev command_of : Json → String
command_of j = ""

abbrev system_prompt : AgentType → String
system_prompt t = "You explore."

abbrev text_of_error : TaskError → String
text_of_error e = "no"

abbrev spawned : Orchestra ℕ
spawned =
    (spawn command_of system_prompt text_of_error parent met input
      (make_orchestrator (some 1) empty)).1

Reach-IsSound_example : IsSound spawned
Reach-IsSound_example =
    Reach-IsSound command_of system_prompt text_of_error (some 1) empty spawned tt
      (next _ _ here (spawns parent met input (make_orchestrator (some 1) empty) tt))

abbrev task : Task
task = record {
  id = "task";
  subject = "look";
  description = "find it";
  status = in_progress;
  owner = some "agent";
  blocked_by = [];
  agent_type = some explore;
  result = none;
  error = none;
  worktree_path = none;
  worktree_branch = none;
  parent_notified_at = none;
  created_at = "now";
  updated_at = "now";
  duration_ms = none;
}

abbrev child : Child ℕ
child = record {
  agent_id = "agent";
  task_id = "task";
  agent_type = explore;
  session = session;
  registry = [];
  worktree = none;
  tool_uses = 0;
  stage = running;
}

abbrev busy : Orchestra ℕ
busy = record {
  max = 1;
  store = record { tasks = ("task", task) ∷ []; file = none };
  active = ("agent", child) ∷ [];
  events = [];
  completions = 0;
}

abbrev clean : Cleanup
clean = record { retained = false; path = none; branch = none }

finalize-effects_example :
    let p = finalize env "agent" (done "found") clean 5 busy in
    (u : Task) × Memᴰ u (pending_parent_notifications p.store)
    × (w : FinishTaskInput) × IsFinished "now" (done "found") w task u
    × Retains clean w
    × (w.duration_ms ≡ some 5)
    × (e : SubagentEvent) × (p.events ≡ [] ++ e ∷ [])
    × Tells "agent" "task" (done "found") w e
    × (p.completions ≡ 1)
    × (p.active ≡ remove "agent" busy.active)
unfolding lookup
finalize-effects_example =
    finalize-effects env "agent" (done "found") clean 5 busy child task "agent" refl refl refl refl
