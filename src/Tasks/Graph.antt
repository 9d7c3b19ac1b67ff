-- ===== src/Tasks/Graph.antt =====
-- The data of packages/core/src/tasks.ts: tasks, errors, the store, loading it and writing it back.
use swain.Common.{
  String, Bool, true, false, Option, none, some, List, [], ◌∷◌, map, if◌then◌else◌, Dict, insert,
  values,
}
use swain.Tasks.Node.{TaskStatus, in_progress, completed, failed, Task}
use swain.Tasks.File.{Field, task_fields, decode_tasks}

pub data TaskError : Type 0 where
  not_found : (task_id : String) → TaskError
  already_owned : (task_id owner : String) → TaskError
  blocked : (task_id : String) → (blocking : List String) → TaskError
  platform_error : TaskError

pub data Outcome {ℓ} (A : Type ℓ) : Type ℓ where
  ok : A → Outcome A
  err : TaskError → Outcome A

pub record Store : Type 0 where
  pub tasks : Dict Task
  pub file : Option String

pub record Env : Type 0 where
  pub uuid : String
  pub now : String
  pub written : Bool
  pub stringify : List (Dict (Option Field)) → String

-- An effect on the store.
abbrev pub Action {ℓ} : Type ℓ → Type ℓ
Action A = Store → Outcome A × Store

abbrev pub is_completed : TaskStatus → Bool
is_completed completed = true
is_completed _ = false

abbrev pub is_failed : TaskStatus → Bool
is_failed failed = true
is_failed _ = false

abbrev pub is_in_progress : TaskStatus → Bool
is_in_progress in_progress = true
is_in_progress _ = false

abbrev pub is_some {ℓ} : {A : Type ℓ} → Option A → Bool
is_some none = false
is_some (some _) = true

-- `a ?? b`, and a defined value of a patch over the present one.
abbrev pub or_default {ℓ} : {A : Type ℓ} → Option A → A → A
or_default none d = d
or_default (some a) d = a

abbrev pub or_else {ℓ} : {A : Type ℓ} → Option A → Option A → Option A
or_else none d = d
or_else (some a) d = some a

-- `new Map(tasks.map((t) => [t.id, t]))`
unfoldable pub index_from : Dict Task → List Task → Dict Task
index_from m [] = m
index_from m (t ∷ ts) = index_from (insert t.id t m) ts

-- A loaded store, or the failure to read the file or to parse or decode what it holds.
pub data Loaded : Type 0 where
  loaded : Store → Loaded
  unreadable undecodable : Loaded

unfoldable pub indexed : String → Option (List Task) → Loaded
unfolding index_from
indexed body none = undecodable
indexed body (some ts) = loaded (record { tasks = index_from [] ts; file = some body })

unfoldable pub parsed : String → Option (List (Dict Field)) → Loaded
unfolding indexed
parsed body none = undecodable
parsed body (some ms) = indexed body (decode_tasks ms)

-- Whether the file is seen, and the text that its reading gives. `parse` gives the objects of a
-- JSON text, and none where the text is not that of an array of objects. A missing file starts
-- empty.
unfoldable pub load_task_store :
    (String → Option (List (Dict Field))) → Bool → Option String → Loaded
unfolding parsed indexed
load_task_store parse false read = loaded (record { tasks = []; file = none })
load_task_store parse true none = unreadable
load_task_store parse true (some body) = parsed body (parse body)

-- The text of the tasks of the map.
abbrev pub body_of : Env → Dict Task → String
body_of env m = env.stringify (map task_fields (values m))

unfoldable pub persist : {A : Type 0} → Env → A → Action A
persist env a s =
    if env.written
    then (ok a, record s { file = some (body_of env s.tasks) })
    else (err platform_error, s)

-- `Ref.update(store.ref, (m) => new Map(m).set(id, task))`, `persist`, and the task as the result.
unfoldable pub commit : Env → String → Task → Action Task
unfolding persist
commit env id task s = persist env task (record s { tasks = insert id task s.tasks })
