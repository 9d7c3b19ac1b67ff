-- ===== src/Tasks/Run.antt =====
-- Sequences of the operations of packages/core/src/tasks.ts that write.
use swain.Common.{String, List, [], ◌∷◌}
use swain.Tasks.{
  Store, Env, CreateTaskInput, UpdateTaskInput, ClaimTaskInput, FinishTaskInput, Terminal,
  create_task, update_task, claim_task, finish, mark_parent_notified, reset_dangling_tasks,
}

pub data Operation : Type 0 where
  create : CreateTaskInput → Operation
  update : String → UpdateTaskInput → Operation
  claim : ClaimTaskInput → Operation
  settle : String → Terminal → FinishTaskInput → Operation
  mark : List String → Operation
  reset : Operation

unfoldable pub step : Env → Operation → Store → Store
step env (create input) s = (create_task env input s).1
step env (update id patch) s = (update_task env id patch s).1
step env (claim input) s = (claim_task env input s).1
step env (settle id outcome w) s = (finish env id outcome w s).1
step env (mark ids) s = (mark_parent_notified env ids s).1
step env reset s = (reset_dangling_tasks env s).1

-- Each operation with the environment that it meets.
unfoldable pub run : List (Env × Operation) → Store → Store
run [] s = s
run ((env, op) ∷ ops) s = run ops (step env op s)
