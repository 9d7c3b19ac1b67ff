-- ===== src/Tasks/File.antt =====
-- What packages/core/src/tasks.ts writes to `tasks.json` and accepts from it: the objects of its
-- tasks, and `TaskSchema`.
--
-- An object that is written has every field, of which an undefined one is none. A number of a file
-- is whole, as the durations are.
use swain.Common.{ℕ, String, Option, none, some, List, [], ◌∷◌, if◌then◌else◌, str_eq, Dict, lookup}
use swain.Tasks.Node.{
  TaskStatus, pending, in_progress, completed, failed, AgentType, explore, plan, general_purpose,
  Task,
}

-- A value of a field of an object: a text, a number, an array of texts, or any other.
pub data Field : Type 0 where
  text : String → Field
  number : ℕ → Field
  texts : List String → Field
  other_value : Field

abbrev pub status_text : TaskStatus → String
status_text pending = "pending"
status_text in_progress = "in_progress"
status_text completed = "completed"
status_text failed = "failed"

abbrev pub agent_text : AgentType → String
agent_text explore = "Explore"
agent_text plan = "Plan"
agent_text general_purpose = "GeneralPurpose"

abbrev pub optional {ℓ} : {A : Type ℓ} → (A → Field) → Option A → Option Field
optional f none = none
optional f (some a) = some (f a)

abbrev pub of_status : TaskStatus → Field
of_status st = text (status_text st)

abbrev pub of_agent : AgentType → Field
of_agent a = text (agent_text a)

-- The fields of a task's object.
abbrev pub task_fields : Task → Dict (Option Field)
task_fields t =
    ("id", some (text t.id))
    ∷ ("subject", some (text t.subject))
    ∷ ("description", some (text t.description))
    ∷ ("status", some (of_status t.status))
    ∷ ("owner", optional text t.owner)
    ∷ ("blockedBy", some (texts t.blocked_by))
    ∷ ("agentType", optional of_agent t.agent_type)
    ∷ ("result", optional text t.result)
    ∷ ("error", optional text t.error)
    ∷ ("worktreePath", optional text t.worktree_path)
    ∷ ("worktreeBranch", optional text t.worktree_branch)
    ∷ ("parentNotifiedAt", optional text t.parent_notified_at)
    ∷ ("createdAt", some (text t.created_at))
    ∷ ("updatedAt", some (text t.updated_at))
    ∷ ("durationMs", optional number t.duration_ms)
    ∷ []

infixl 5 ◌>>=◌
abbrev ◌>>=◌ {ℓ κ} : {A : Type ℓ} {B : Type κ} → Option A → (A → Option B) → Option B
none >>= f = none
some a >>= f = f a

-- `Schema.String`, `Schema.Number`, `Schema.Array(Schema.String)`, and the two literals.
abbrev pub a_text : Field → Option String
a_text (text s) = some s
a_text _ = none

abbrev pub a_number : Field → Option ℕ
a_number (number n) = some n
a_number _ = none

abbrev pub an_array : Field → Option (List String)
an_array (texts ss) = some ss
an_array _ = none

abbrev pub status_of : String → Option TaskStatus
status_of s =
    if str_eq s "pending"
    then some pending
    else if str_eq s "in_progress"
    then some in_progress
    else if str_eq s "completed"
    then some completed
    else if str_eq s "failed"
    then some failed
    else none

abbrev pub agent_of : String → Option AgentType
agent_of s =
    if str_eq s "Explore"
    then some explore
    else if str_eq s "Plan"
    then some plan
    else if str_eq s "GeneralPurpose"
    then some general_purpose
    else none

abbrev pub a_status : Field → Option TaskStatus
a_status f = do s ← a_text f; status_of s

abbrev pub an_agent : Field → Option AgentType
an_agent f = do s ← a_text f; agent_of s

-- A field that must be there, and `Schema.optional`: a field that is missing is undefined.
abbrev pub need {ℓ} : {A : Type ℓ} → (Field → Option A) → Option Field → Option A
need read none = none
need read (some f) = read f

abbrev pub may {ℓ} : {A : Type ℓ} → (Field → Option A) → Option Field → Option (Option A)
may read none = some none
may read (some f) = do a ← read f; some (some a)

-- `TaskSchema`, on what the fields of an object are; fields of other names are ignored.
unfoldable pub decode_fields : (String → Option Field) → Option Task
decode_fields at_key = do
  id ← need a_text (at_key "id")
  subject ← need a_text (at_key "subject")
  description ← need a_text (at_key "description")
  status ← need a_status (at_key "status")
  owner ← may a_text (at_key "owner")
  blocked_by ← need an_array (at_key "blockedBy")
  agent_type ← may an_agent (at_key "agentType")
  result ← may a_text (at_key "result")
  error ← may a_text (at_key "error")
  worktree_path ← may a_text (at_key "worktreePath")
  worktree_branch ← may a_text (at_key "worktreeBranch")
  parent_notified_at ← may a_text (at_key "parentNotifiedAt")
  created_at ← need a_text (at_key "createdAt")
  updated_at ← need a_text (at_key "updatedAt")
  duration_ms ← may a_number (at_key "durationMs")
  some (record {
    id = id;
    subject = subject;
    description = description;
    status = status;
    owner = owner;
    blocked_by = blocked_by;
    agent_type = agent_type;
    result = result;
    error = error;
    worktree_path = worktree_path;
    worktree_branch = worktree_branch;
    parent_notified_at = parent_notified_at;
    created_at = created_at;
    updated_at = updated_at;
    duration_ms = duration_ms;
  })

-- `TasksFile`: one task that is not decoded fails the whole.
unfoldable pub decode_tasks : List (Dict Field) → Option (List Task)
unfolding decode_fields
decode_tasks [] = some []
decode_tasks (m ∷ ms) = do t ← decode_fields (λ k. lookup k m); ts ← decode_tasks ms; some (t ∷ ts)
