-- ===== src/Tasks/Codec.antt =====
-- `TaskSchema` reads back every field of a task that `JSON.stringify` wrote.
use swain.Common.{
  ℕ, String, Bool, true, false, not, ◌&&◌, Option, none, some, List, [], ◌∷◌, map, any, ◌≡◌, refl,
  arith, ap, ◌∙◌, str_eq, eq_iff, Dict, lookup,
}
use swain.Tasks.File.{optional, of_agent, a_text, a_number, status_of, an_agent, may}
use swain.Tasks.{
  TaskStatus, pending, in_progress, completed, failed, AgentType, explore, plan, general_purpose,
  Task, text, number, task_fields, status_text, decode_fields, decode_tasks,
}

-- The fields of an object that `JSON.stringify` writes: not those that are undefined.
abbrev pub defined {ℓ} : {A : Type ℓ} → Dict (Option A) → Dict A
defined [] = []
defined ((k, none) ∷ m) = defined m
defined ((k, some a) ∷ m) = (k, a) ∷ defined m

abbrev join {ℓ} : {A : Type ℓ} → Option (Option A) → Option A
join none = none
join (some o) = o

-- No key stands twice.
unfoldable has_once {ℓ} : {A : Type ℓ} → Dict A → Bool
has_once [] = true
has_once ((k, a) ∷ m) = not (any (λ e. str_eq e.0 k) m) && has_once m

lookup-absent {ℓ} :
    {A : Type ℓ} (k : String) (m : Dict (Option A))
    → any (λ e. str_eq e.0 k) m ≡ false
    → lookup k (defined m) ≡ none
unfolding lookup
lookup-absent k [] h = refl
lookup-absent k ((j, none) ∷ m) h = lookup-absent k m (ground arith)
lookup-absent k ((j, some a) ∷ m) h = ground (arith, lookup-absent k m)

lookup-defined {ℓ} :
    {A : Type ℓ} (k : String) (m : Dict (Option A))
    → has_once m ≡ true
    → lookup k (defined m) ≡ join (lookup k m)
unfolding lookup has_once
lookup-defined k [] h = refl
lookup-defined k ((j, some a) ∷ m) h = ground (arith, lookup-defined k m)
lookup-defined k ((j, none) ∷ m) h =
    ground (arith, eq_iff j k, lookup-defined k m, lookup-absent k m)

-- What each field is read as.
status-read : (st : TaskStatus) → status_of (status_text st) ≡ some st
status-read pending = refl
status-read in_progress = refl
status-read completed = refl
status-read failed = refl

may-text : (o : Option String) → may a_text (optional text o) ≡ some o
may-text none = refl
may-text (some s) = refl

may-number : (o : Option ℕ) → may a_number (optional number o) ≡ some o
may-number none = refl
may-number (some n) = refl

may-agent : (o : Option AgentType) → may an_agent (optional of_agent o) ≡ some o
may-agent none = refl
may-agent (some explore) = refl
may-agent (some plan) = refl
may-agent (some general_purpose) = refl

task_fields-once : (t : Task) → has_once (task_fields t) ≡ true
unfolding has_once
task_fields-once t = refl

decode_fields-task_fields :
    (t : Task) → decode_fields (λ k. join (lookup k (task_fields t))) ≡ some t
unfolding decode_fields lookup
decode_fields-task_fields t =
    rw
      (
        status-read t.status,
        may-text t.owner,
        may-agent t.agent_type,
        may-text t.result,
        may-text t.error,
        may-text t.worktree_path,
        may-text t.worktree_branch,
        may-text t.parent_notified_at,
        may-number t.duration_ms,
      )
      refl

decode_fields-defined :
    (t : Task) → decode_fields (λ k. lookup k (defined (task_fields t))) ≡ some t
decode_fields-defined t =
    ap decode_fields (λ i k. lookup-defined k (task_fields t) (task_fields-once t) i)
    ∙ decode_fields-task_fields t

-- The objects of tasks, without their undefined fields, are decoded as those tasks.
pub decode_tasks-defined :
    (ts : List Task) → decode_tasks (map defined (map task_fields ts)) ≡ some ts
unfolding decode_tasks
decode_tasks-defined [] = refl
decode_tasks-defined (t ∷ ts) = rw (decode_fields-defined t, decode_tasks-defined ts) refl
