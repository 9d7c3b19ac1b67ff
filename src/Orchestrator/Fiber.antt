-- ===== src/Orchestrator/Fiber.antt =====
-- packages/core/src/orchestrator.ts: what the fiber of a child does, and the interruption of all.
use swain.Common.{ℕ, suc, String, none, some, [], ◌∷◌, ◌++◌, if◌then◌else◌, str_eq, Dict, lookup}
use swain.Llms.Messages.{Json}
use swain.Tasks.{Env, FinishTaskInput, Terminal, done, broken, finish}
use swain.Orchestrator.{
  Cleanup, SubagentEvent, subagent_progress, subagent_complete, subagent_failed, settled, announced,
  rung, Child, Orchestra, remove_key,
}

-- The worktree fields that a finish records.
abbrev pub finish_input : Cleanup → ℕ → FinishTaskInput
finish_input cleanup duration =
    if cleanup.retained
    then record {
      worktree_path = cleanup.path;
      worktree_branch = cleanup.branch;
      duration_ms = some duration;
    }
    else record { worktree_path = none; worktree_branch = none; duration_ms = some duration }

abbrev pub outcome_event : String → String → Terminal → Cleanup → SubagentEvent
outcome_event agent_id task_id (done result) cleanup =
    subagent_complete agent_id task_id result (if cleanup.retained then cleanup.path else none)
outcome_event agent_id task_id (broken error) cleanup = subagent_failed agent_id task_id error

module _ {W : Type 0} where
  -- A change of the child of an agent, where it is still there.
  unfoldable pub adjust : String → (Child W → Child W) → Dict (Child W) → Dict (Child W)
  adjust k f [] = []
  adjust k f ((j, c) ∷ m) = if str_eq j k then (j, f c) ∷ m else (j, c) ∷ adjust k f m

  -- `childEmit` on the start of a tool's execution.
  unfoldable pub progress : String → String → Json → Orchestra W → Orchestra W
  unfolding adjust
  progress agent_id tool input o = elim (lookup agent_id o.active) [
    | none ↦ o
    | some c ↦ record o {
      active = adjust agent_id (λ d. record d { tool_uses = suc d.tool_uses }) o.active;
      events = o.events ++ subagent_progress agent_id c.task_id tool input (suc c.tool_uses) ∷ [];
    }
  ]

  -- The run of a child has ended: its worktree is cleaned up and its task finished. A failure to
  -- persist is only logged.
  unfoldable pub settle : Env → String → Terminal → Cleanup → ℕ → Orchestra W → Orchestra W
  unfolding adjust
  settle env agent_id outcome cleanup duration o = elim (lookup agent_id o.active) [
    | none ↦ o
    | some c ↦ record o {
      store = (finish env c.task_id outcome (finish_input cleanup duration) o.store).1;
      active = adjust agent_id (λ d. record d { stage = settled outcome cleanup }) o.active;
    }
  ]

  -- The event of the outcome, then the doorbell, then the end of the fiber.
  unfoldable pub announce : String → Terminal → Cleanup → Orchestra W → Orchestra W
  unfolding adjust
  announce agent_id outcome cleanup o = elim (lookup agent_id o.active) [
    | none ↦ o
    | some c ↦ record o {
      active = adjust agent_id (λ d. record d { stage = announced }) o.active;
      events = o.events ++ outcome_event agent_id c.task_id outcome cleanup ∷ [];
    }
  ]

  unfoldable pub ring : String → Orchestra W → Orchestra W
  unfolding adjust
  ring agent_id o = record o {
    active = adjust agent_id (λ d. record d { stage = rung }) o.active;
    completions = suc o.completions;
  }

  unfoldable pub leave : String → Orchestra W → Orchestra W
  leave agent_id o = record o { active = remove_key agent_id o.active }

  -- `finalize` of a child that nothing interrupts.
  unfoldable pub finalize : Env → String → Terminal → Cleanup → ℕ → Orchestra W → Orchestra W
  unfolding settle announce ring leave
  finalize env agent_id outcome cleanup duration o = leave agent_id (
      ring agent_id
        (announce agent_id outcome cleanup (settle env agent_id outcome cleanup duration o)))

  abbrev pub interrupt_all : Orchestra W → Orchestra W
  interrupt_all o = record o { active = [] }
