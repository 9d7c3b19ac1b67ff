-- ===== src/Tasks.antt =====
-- packages/core/src/tasks.ts: the session task graph and its operations.
--
-- `Store` holds the map of the `Ref` and the text of `tasks.json`, `none` where there is no file. An
-- operation takes an `Env`: the UUID that it would draw, the time that it reads, whether its
-- `persist` (directory, temporary file, rename) succeeds, and `JSON.stringify`. A failed one leaves
-- the file as it was and fails with a platform error, after the map has changed. A task error is
-- told by its reason with the values that its message shows. An operation is one step: what another
-- fiber does between its read of the map and its write is not modelled.
mod Node
mod File
mod Graph
mod Tests
pub mod Run
pub mod WellFormed
pub mod Codec
pub mod Restart
pub mod Claim
pub mod Ownership
pub mod Unwritten
pub mod Finish
pub mod Notify
pub mod Dangling
pub use Node.{
  TaskStatus, pending, in_progress, completed, failed, AgentType, explore, plan, general_purpose,
  Task,
}
pub use File.{Field, text, number, texts, other_value, task_fields, status_text, agent_text}
unfoldable pub use File.{decode_fields, decode_tasks}
pub use Graph.{
  TaskError, not_found, already_owned, blocked, platform_error, Outcome, ok, err, Store, Env,
  Action, is_completed, is_failed, is_in_progress, is_some, or_default, or_else, body_of, Loaded,
  loaded, unreadable, undecodable,
}
unfoldable pub use Graph.{index_from, load_task_store, persist, commit}
use swain.Common.{
  String, Bool, true, false, not, ◌&&◌, ◌||◌, Option, none, some, List, [], ◌∷◌, ℕ, Dict, lookup,
  insert, values, filter,
}

is_done : Dict Task → String → Bool
is_done m dep = elim (lookup dep m) [ none ↦ false | some t ↦ is_completed t.status ]

pub blocking_deps : Task → Dict Task → List String
unfolding is_done
blocking_deps task m = filter (λ dep. not (is_done m dep)) task.blocked_by

pub record CreateTaskInput : Type 0 where
  pub subject : String
  pub description : String
  pub blocked_by : Option (List String)
  pub agent_type : Option AgentType
  pub owner : Option String
  pub status : Option TaskStatus

abbrev pub created : Env → CreateTaskInput → Task
created env input = record {
  id = env.uuid;
  subject = input.subject;
  description = input.description;
  status = or_default input.status pending;
  owner = input.owner;
  blocked_by = or_default input.blocked_by [];
  agent_type = input.agent_type;
  result = none;
  error = none;
  worktree_path = none;
  worktree_branch = none;
  parent_notified_at = none;
  created_at = env.now;
  updated_at = env.now;
  duration_ms = none;
}

pub create_task : Env → CreateTaskInput → Action Task
unfolding commit
create_task env input = commit env env.uuid (created env input)

pub list_tasks : Store → List Task
list_tasks s = values s.tasks

pub get_task : String → Store → Outcome Task
get_task id s = elim (lookup id s.tasks) [ none ↦ err (not_found id) | some t ↦ ok t ]

pub record UpdateTaskInput : Type 0 where
  pub subject : Option String
  pub description : Option String
  pub status : Option TaskStatus
  pub owner : Option String
  pub blocked_by : Option (List String)
  pub agent_type : Option AgentType
  pub result : Option String
  pub error : Option String

-- `{ ...existing, ...definedOnly(patch), updatedAt: now() }`
abbrev pub patched : Env → UpdateTaskInput → Task → Task
patched env patch t = record t {
  subject = or_default patch.subject t.subject;
  description = or_default patch.description t.description;
  status = or_default patch.status t.status;
  owner = or_else patch.owner t.owner;
  blocked_by = or_default patch.blocked_by t.blocked_by;
  agent_type = or_else patch.agent_type t.agent_type;
  result = or_else patch.result t.result;
  error = or_else patch.error t.error;
  updated_at = env.now;
}

pub update_task : Env → String → UpdateTaskInput → Action Task
unfolding commit
update_task env id patch s = elim (lookup id s.tasks) [
  | none ↦ (err (not_found id), s)
  | some t ↦ commit env id (patched env patch t) s
]

pub record ClaimTaskInput : Type 0 where
  pub task_id : Option String
  pub owner : String
  pub agent_type : AgentType
  pub subject : Option String
  pub description : Option String
  pub worktree_path : Option String
  pub worktree_branch : Option String

abbrev pub delegated : Env → ClaimTaskInput → Task
delegated env input = record {
  id = env.uuid;
  subject = or_default input.subject "(delegated task)";
  description = or_default input.description "";
  status = in_progress;
  owner = some input.owner;
  blocked_by = [];
  agent_type = some input.agent_type;
  result = none;
  error = none;
  worktree_path = input.worktree_path;
  worktree_branch = input.worktree_branch;
  parent_notified_at = none;
  created_at = env.now;
  updated_at = env.now;
  duration_ms = none;
}

abbrev pub claimed : Env → ClaimTaskInput → Task → Task
claimed env input t = record t {
  status = in_progress;
  owner = some input.owner;
  agent_type = some input.agent_type;
  worktree_path = or_else input.worktree_path t.worktree_path;
  worktree_branch = or_else input.worktree_branch t.worktree_branch;
  updated_at = env.now;
}

-- The part of `claimTask` behind the ownership check.
claim_unblocked : Env → ClaimTaskInput → String → Task → List String → Action Task
unfolding commit
claim_unblocked env input id t [] s = commit env t.id (claimed env input t) s
claim_unblocked env input id t (dep ∷ deps) s = (err (blocked id (dep ∷ deps)), s)

claim_existing : Env → ClaimTaskInput → String → Option Task → Action Task
unfolding claim_unblocked blocking_deps
claim_existing env input id none s = (err (not_found id), s)
claim_existing env input id (some t) s = elim t.owner [
  | some o ↦ (err (already_owned id o), s)
  | none ↦ claim_unblocked env input id t (blocking_deps t s.tasks) s
]

claim_target : Env → ClaimTaskInput → Option String → Action Task
unfolding claim_existing commit
claim_target env input none s = commit env env.uuid (delegated env input) s
claim_target env input (some id) s = claim_existing env input id (lookup id s.tasks) s

pub claim_task : Env → ClaimTaskInput → Action Task
unfolding claim_target
claim_task env input s = claim_target env input input.task_id s

pub record FinishTaskInput : Type 0 where
  pub worktree_path : Option String
  pub worktree_branch : Option String
  pub duration_ms : Option ℕ

-- The terminal status with its result or its error.
pub data Terminal : Type 0 where
  done : (result : String) → Terminal
  broken : (error : String) → Terminal

abbrev pub settle : Terminal → Task → Task
settle (done r) t = record t { status = completed; result = some r }
settle (broken e) t = record t { status = failed; error = some e }

abbrev pub finished : Env → Terminal → FinishTaskInput → Task → Task
finished env outcome w t = record (settle outcome t) {
  worktree_path = w.worktree_path;
  worktree_branch = w.worktree_branch;
  duration_ms = or_else w.duration_ms t.duration_ms;
  updated_at = env.now;
}

pub finish : Env → String → Terminal → FinishTaskInput → Action Task
unfolding commit
finish env id outcome w s = elim (lookup id s.tasks) [
  | none ↦ (err (not_found id), s)
  | some t ↦ commit env id (finished env outcome w t) s
]

pub complete_task : Env → String → String → FinishTaskInput → Action Task
unfolding finish
complete_task env id result = finish env id (done result)

pub fail_task : Env → String → String → FinishTaskInput → Action Task
unfolding finish
fail_task env id error = finish env id (broken error)

pub awaits_parent : Task → Bool
awaits_parent t =
    is_some t.owner
    && (is_completed t.status || is_failed t.status)
    && (is_some t.result || is_some t.error)
    && not (is_some t.parent_notified_at)

pub pending_parent_notifications : Store → List Task
unfolding awaits_parent
pending_parent_notifications s = filter awaits_parent (values s.tasks)

abbrev pub noted : String → Task → Task
noted ts t = record t { parent_notified_at = some ts }

pub mark_notified : String → List String → Dict Task → Dict Task
mark_notified ts [] m = m
mark_notified ts (id ∷ ids) m =
    mark_notified ts ids (elim (lookup id m) [ none ↦ m | some t ↦ insert id (noted ts t) m ])

pub mark_parent_notified : Env → List String → Action (Unit {0})
unfolding persist mark_notified
mark_parent_notified env ids s =
    persist env tt (record s { tasks = mark_notified env.now ids s.tasks })

pub is_dangling : Task → Bool
is_dangling t = is_in_progress t.status && is_some t.owner

abbrev pub revived : String → Task → Task
revived ts t = record t {
  owner = none;
  worktree_path = none;
  worktree_branch = none;
  status = pending;
  updated_at = ts;
}

pub revive_all : String → List Task → Dict Task → Dict Task
revive_all ts [] m = m
revive_all ts (t ∷ rest) m = revive_all ts rest (insert t.id (revived ts t) m)

reset_listed : Env → List Task → Action (List Task)
unfolding persist revive_all
reset_listed env [] s = (ok [], s)
reset_listed env (t ∷ rest) s =
    persist env (t ∷ rest) (record s { tasks = revive_all env.now (t ∷ rest) s.tasks })

pub reset_dangling_tasks : Env → Action (List Task)
unfolding reset_listed is_dangling
reset_dangling_tasks env s = reset_listed env (filter is_dangling (values s.tasks)) s
