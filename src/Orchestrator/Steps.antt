-- ===== src/Orchestrator/Steps.antt =====
-- The orchestrator as a step relation: spawns, the points of the children's finalizers in any
-- interleaving, interruptions, and what the parent does to the task graph meanwhile.
use swain.Common.{String, some, ◌≡◌, ◌≢◌, All, lookup, ℕ}
use swain.Llms.Messages.{Json}
use swain.Tasks.{AgentType, TaskError, Env, Terminal}
use swain.Tasks.Run.{Operation, step}
use swain.Tasks.Ownership.{Keeps}
use swain.Orchestrator.{
  Orchestra, ParentRunContext, SpawnEnv, SpawnInput, Cleanup, Child, running, settled, announced,
  spawn,
}
use swain.Orchestrator.Fiber.{progress, settle, announce, ring, leave, interrupt_all}

module _ {W : Type 0} (command_of : Json → String) (system_prompt : AgentType → String)
    (text_of_error : TaskError → String) where
  -- The UUID that a claim may draw for a new task is not a running task's id.
  abbrev pub IsFresh : Env → Orchestra W → Type 0
  IsFresh env o = All (λ e. env.uuid ≢ e.1.task_id) o.active

  pub data Step : Orchestra W → Orchestra W → Type 0 where
    spawns :
        (parent : ParentRunContext W) (env : SpawnEnv) (input : SpawnInput) (o : Orchestra W)
        → IsFresh env.task_env o
        → Step o (spawn command_of system_prompt text_of_error parent env input o).1
    progresses :
        (agent_id tool : String) (input : Json) (o : Orchestra W)
        → Step o (progress agent_id tool input o)
    settles :
        (env : Env) (agent_id : String) (c : Child W) (outcome : Terminal) (cleanup : Cleanup)
        (duration : ℕ) (o : Orchestra W)
        → IsFresh env o
        → lookup agent_id o.active ≡ some c
        → c.stage ≡ running
        → Step o (settle env agent_id outcome cleanup duration o)
    announces :
        (agent_id : String) (c : Child W) (outcome : Terminal) (cleanup : Cleanup) (o : Orchestra W)
        → lookup agent_id o.active ≡ some c
        → c.stage ≡ settled outcome cleanup
        → Step o (announce agent_id outcome cleanup o)
    rings :
        (agent_id : String) (c : Child W) (o : Orchestra W)
        → lookup agent_id o.active ≡ some c
        → c.stage ≡ announced
        → Step o (ring agent_id o)
    -- The fiber ends, at its end or interrupted.
    leaves : (agent_id : String) (o : Orchestra W) → Step o (leave agent_id o)
    interrupts : (o : Orchestra W) → Step o (interrupt_all o)
    -- The parent's tools write to the graph. The reset of dangling tasks is not among them.
    writes :
        (env : Env) (op : Operation) (o : Orchestra W)
        → All (λ e. Keeps e.1.task_id (env, op)) o.active
        → Step o (record o { store = step env op o.store })

  pub data Reach (o : Orchestra W) : Orchestra W → Type 0 where
    here : Reach o o
    next : (p q : Orchestra W) → Reach o p → Step p q → Reach o q
