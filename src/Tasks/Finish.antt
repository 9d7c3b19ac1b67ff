-- ===== src/Tasks/Finish.antt =====
-- What `completeTask` and `failTask` record, and that the parent is told of it.
use swain.Common.{
  String, true, none, some, ◌≡◌, refl, arith, eq_refl, lookup, lookup-insert, filter-Memᴰ,
  lookup-Memᴰ, ◌∙◌, if◌then◌else◌, str_eq, sym, Option, ℕ, ◌⊎◌, inl, inr, ◌≢◌, eq_iff, Bool-cases,
}
use mathlib.Core.List.{Memᴰ}
use swain.Tasks.{
  Task, completed, failed, or_else, Store, Env, Terminal, done, broken, FinishTaskInput, finished,
  commit, finish, persist, awaits_parent, pending_parent_notifications,
}

-- The status of an outcome, with its result or its error in place of the one there was.
abbrev pub Settles : Terminal → Task → Task → Type 0
Settles (done r) t u = (u.status ≡ completed) × (u.result ≡ some r) × (u.error ≡ t.error)
Settles (broken e) t u = (u.status ≡ failed) × (u.error ≡ some e) × (u.result ≡ t.result)

-- `u` is the task `t` as it is when it has finished.
pub record IsFinished (now : String) (outcome : Terminal) (w : FinishTaskInput) (t u : Task)
    : Type 0 where
  pub settles : Settles outcome t u
  pub path : u.worktree_path ≡ w.worktree_path
  pub branch : u.worktree_branch ≡ w.worktree_branch
  pub duration :
      ((d : ℕ) × (w.duration_ms ≡ some d) × (u.duration_ms ≡ some d))
      ⊎ ((w.duration_ms ≡ none) × (u.duration_ms ≡ t.duration_ms))
  pub time : u.updated_at ≡ now
  pub same_text : (u.id ≡ t.id) × (u.subject ≡ t.subject) × (u.description ≡ t.description)
  pub same_owner : (u.owner ≡ t.owner) × (u.agent_type ≡ t.agent_type)
  pub same_deps : u.blocked_by ≡ t.blocked_by
  pub same_notice : u.parent_notified_at ≡ t.parent_notified_at
  pub same_start : u.created_at ≡ t.created_at

duration-cases :
    (w t : Option ℕ)
    → ((d : ℕ) × (w ≡ some d) × (or_else w t ≡ some d)) ⊎ ((w ≡ none) × (or_else w t ≡ t))
duration-cases none t = inr (refl, refl)
duration-cases (some d) t = inl (d, refl, refl)

pub finished-IsFinished :
    (env : Env) (outcome : Terminal) (w : FinishTaskInput) (t : Task)
    → IsFinished env.now outcome w t (finished env outcome w t)
finished-IsFinished env (done r) w t = record {
  settles = (refl, refl, refl);
  path = refl;
  branch = refl;
  duration = duration-cases w.duration_ms t.duration_ms;
  time = refl;
  same_text = (refl, refl, refl);
  same_owner = (refl, refl);
  same_deps = refl;
  same_notice = refl;
  same_start = refl;
}
finished-IsFinished env (broken e) w t = record {
  settles = (refl, refl, refl);
  path = refl;
  branch = refl;
  duration = duration-cases w.duration_ms t.duration_ms;
  time = refl;
  same_text = (refl, refl, refl);
  same_owner = (refl, refl);
  same_deps = refl;
  same_notice = refl;
  same_start = refl;
}

module _ (env : Env) (id : String) (outcome : Terminal) (w : FinishTaskInput) (s : Store) (t : Task)
    (found : lookup id s.tasks ≡ some t) where
  tasks-finish :
      (k : String)
      → lookup k (finish env id outcome w s).1.tasks
        ≡ (if str_eq id k then some (finished env outcome w t) else lookup k s.tasks)
  unfolding finish commit persist
  tasks-finish k = ground (arith, lookup-insert id k (finished env outcome w t) s.tasks)

  -- A finish of a present task leaves at its key, whether or not the disk can be written, the task
  -- as completed with the result, or as failed with the error, with exactly the worktree fields
  -- that are given, so that a cleaned worktree's are cleared, with the duration if one is given, and
  -- with the time of the finish; its other fields, and every other task, are as they were.
  pub lookup-finish :
      (k : String)
      → let after = lookup k (finish env id outcome w s).1.tasks in
        ((k ≡ id) × (u : Task) × (after ≡ some u) × IsFinished env.now outcome w t u)
        ⊎ ((k ≢ id) × (after ≡ lookup k s.tasks))
  lookup-finish k = elim (Bool-cases (str_eq id k)) [
    | inl same ↦ inl (
      sym ((eq_iff id k).0 same),
      finished env outcome w t,
      tasks-finish k ∙ rw same refl,
      finished-IsFinished env outcome w t,
    )
    | inr other ↦ inr (ground (arith, eq_iff id k), tasks-finish k ∙ rw other refl)
  ]

  awaits_parent-finished :
      (o : String)
      → t.owner ≡ some o
      → t.parent_notified_at ≡ none
      → awaits_parent (finished env outcome w t) ≡ true
  unfolding awaits_parent
  awaits_parent-finished o owned untold =
      elim outcome as (λ x. awaits_parent (finished env x w t) ≡ true) [
        | done r ↦ ground arith
        | broken e ↦ ground arith
      ]

  -- The finish of an owned task of which the parent was not told puts it among the tasks that wait
  -- to be shown to the parent, also where the disk cannot be written.
  pub finish-awaits_parent :
      (o : String)
      → t.owner ≡ some o
      → t.parent_notified_at ≡ none
      → Memᴰ (finished env outcome w t) (pending_parent_notifications (finish env id outcome w s).1)
  unfolding pending_parent_notifications
  finish-awaits_parent o owned untold =
      filter-Memᴰ awaits_parent _ _ (lookup-Memᴰ id _ _ (tasks-finish id ∙ rw (eq_refl id) refl))
        (awaits_parent-finished o owned untold)
