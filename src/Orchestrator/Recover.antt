-- ===== src/Orchestrator/Recover.antt =====
-- `recoverDangling` of packages/core/src/orchestrator.ts.
use swain.Common.{String, none, some, List, [], ◌∷◌}
use swain.Llms.Messages.{Json}
use swain.Tasks.{AgentType, Task, TaskError, ok, err, Outcome, Store, Env, reset_dangling_tasks}
use swain.Agent.Tools.{Attempt, success, failure}
use swain.Orchestrator.{Orchestra, ParentRunContext, SpawnEnv, SpawnResult, spawn, reason_of}

module _ {W : Type 0} where
  -- The first refused spawn ends the loop.
  spawned_after :
      Attempt SpawnResult × Orchestra W
      → (Orchestra W → Attempt (List SpawnResult) × Orchestra W)
      → Attempt (List SpawnResult) × Orchestra W
  spawned_after (failure e, o) rest = (failure e, o)
  spawned_after (success r, o) rest = elim (rest o).0 [
    | failure e ↦ (failure e, (rest o).1)
    | success rs ↦ (success (r ∷ rs), (rest o).1)
  ]

module _ {W : Type 0} (command_of : Json → String) (system_prompt : AgentType → String)
    (text_of_error : TaskError → String) where
  -- The loop, where `draw` gives what each spawn meets.
  respawn :
      ParentRunContext W
      → (String → SpawnEnv)
      → List Task
      → Orchestra W
      → Attempt (List SpawnResult) × Orchestra W
  unfolding spawned_after
  respawn parent draw [] o = (success [], o)
  respawn parent draw (t ∷ ts) o = elim t.agent_type [
    | none ↦ respawn parent draw ts o
    | some agent_type ↦
        spawned_after
          (spawn command_of system_prompt text_of_error parent (draw t.id)
            (record {
              description = t.subject;
              prompt = t.description;
              agent_type = agent_type;
              model = none;
              request_options = none;
              model_ref = none;
              task_id = some t.id;
            })
            o)
          (λ o'. respawn parent draw ts o')
  ]

  recovered :
      ParentRunContext W
      → (String → SpawnEnv)
      → Outcome (List Task) × Store
      → Orchestra W
      → Attempt (List SpawnResult) × Orchestra W
  unfolding respawn
  recovered parent draw (err e, store) o = (
    failure (record { tool = "Agent"; reason = reason_of e; message = text_of_error e }),
    record o { store = store },
  )
  recovered parent draw (ok ts, store) o = respawn parent draw ts (record o { store = store })

  -- Removing the dead agents' worktrees in between is git's work.
  unfoldable pub recover_dangling :
      ParentRunContext W
      → Env
      → (String → SpawnEnv)
      → Orchestra W
      → Attempt (List SpawnResult) × Orchestra W
  unfolding recovered
  recover_dangling parent env draw o = recovered parent draw (reset_dangling_tasks env o.store) o
