-- ===== src/Tasks/WellFormed.antt =====
-- The task graph is indexed by the tasks' own ids, and survives a restart.
use swain.Common.{
  String, Option, none, some, List, [], ◌∷◌, ◌≡◌, refl, ◌≢◌, arith, eq_iff, All, Dict, lookup,
  insert, values, eq_refl, subst, str_eq, Bool-cases, ◌∙◌, Option-cases, inl, inr,
}
use swain.Tasks.Run.{Operation, create, update, claim, settle, mark, reset, step, run}
use swain.Tasks.{
  Task, Store, Env, ClaimTaskInput, UpdateTaskInput, FinishTaskInput, created, patched, claimed,
  finished, delegated, Terminal, done, broken, persist, commit, create_task, update_task,
  claim_task, claim_target, claim_existing, finish, mark_notified, mark_parent_notified, revive_all,
  reset_listed, reset_dangling_tasks,
}

-- Every key is its task's id, and no key stands twice.
abbrev pub IsAbsent : String → Dict Task → Type 0
IsAbsent k m = All (λ e. e.0 ≢ k) m

abbrev pub IsIndexed : Dict Task → Type 0
IsIndexed [] = Unit
IsIndexed ((k, t) ∷ m) = (t.id ≡ k) × IsAbsent k m × IsIndexed m

insert-IsAbsent :
    (j k : String) (t : Task) (m : Dict Task) → k ≢ j → IsAbsent j m → IsAbsent j (insert k t m)
unfolding insert
insert-IsAbsent j k t [] h a = (h, tt)
insert-IsAbsent j k t ((i, u) ∷ m) h a = ground (arith, eq_iff i k, insert-IsAbsent j k t m h a.1)

pub insert-IsIndexed :
    (k : String) (t : Task) (m : Dict Task) → t.id ≡ k → IsIndexed m → IsIndexed (insert k t m)
unfolding insert
insert-IsIndexed k t [] e h = (e, tt, tt)
insert-IsIndexed k t ((i, u) ∷ m) e h =
    ground (arith, eq_iff i k, insert-IsIndexed k t m e h.2, insert-IsAbsent i k t m)

pub lookup-IsIndexed :
    (k : String) (t : Task) (m : Dict Task) → IsIndexed m → lookup k m ≡ some t → t.id ≡ k
unfolding lookup
lookup-IsIndexed k t [] h e = cc
lookup-IsIndexed k t ((i, u) ∷ m) h e = ground (arith, eq_iff i k, lookup-IsIndexed k t m h.2)

lookup-IsAbsent : (k : String) (t : Task) (m : Dict Task) → IsAbsent k m → lookup k m ≡ some t → ⊥
unfolding lookup
lookup-IsAbsent k t [] a e = cc
lookup-IsAbsent k t ((i, u) ∷ m) a e = ground (arith, eq_iff i k, lookup-IsAbsent k t m a.1)

-- To show something of every task of the map, show it of what each look-up finds.
pub values-All {ℓ} :
    (P : Task → Type ℓ) (m : Dict Task)
    → IsIndexed m
    → ((k : String) (t : Task) → lookup k m ≡ some t → P t)
    → All P (values m)
unfolding values lookup
values-All P [] h p = tt
values-All P ((j, u) ∷ m) h p = (
  p j u (rw (eq_refl j) refl),
  values-All P m h.2 λ k t e. p k t (elim (Bool-cases (str_eq j k)) [
    | inl same ↦
        absurd (lookup-IsAbsent k t m (subst (λ x. IsAbsent x m) ((eq_iff j k).0 same) h.1) e)
    | inr other ↦ rw other e
  ]),
)

pub id-finished :
    (env : Env) (outcome : Terminal) (w : FinishTaskInput) (t : Task)
    → (finished env outcome w t).id ≡ t.id
id-finished env (done r) w t = refl
id-finished env (broken e) w t = refl

-- What a commit and the two loops of writes keep.
module _ (s : Store) (h : IsIndexed s.tasks) where
  commit-IsIndexed :
      (env : Env) (k : String) (t : Task) → t.id ≡ k → IsIndexed (commit env k t s).1.tasks
  unfolding commit
  commit-IsIndexed env k t e = ground (arith, insert-IsIndexed k t s.tasks e h)

  update_task-IsIndexed :
      (env : Env) (id : String) (patch : UpdateTaskInput)
      → IsIndexed (update_task env id patch s).1.tasks
  unfolding update_task
  update_task-IsIndexed env id patch = elim (Option-cases (lookup id s.tasks)) [
    | inl e ↦ rw (e, update_task) h
    | inr (t, e) ↦
        rw (e, update_task)
          (commit-IsIndexed env id (patched env patch t) (lookup-IsIndexed id t s.tasks h e))
  ]

  finish-IsIndexed :
      (env : Env) (id : String) (outcome : Terminal) (w : FinishTaskInput)
      → IsIndexed (finish env id outcome w s).1.tasks
  unfolding finish
  finish-IsIndexed env id outcome w = elim (Option-cases (lookup id s.tasks)) [
    | inl e ↦ rw (e, finish) h
    | inr (t, e) ↦
        rw (e, finish)
          (commit-IsIndexed env id (finished env outcome w t)
            (id-finished env outcome w t ∙ lookup-IsIndexed id t s.tasks h e))
  ]

  claim_existing-IsIndexed :
      (env : Env) (input : ClaimTaskInput) (id : String) (found : Option Task)
      → IsIndexed (claim_existing env input id found s).1.tasks
  unfolding claim_existing
  claim_existing-IsIndexed env input id none = h
  claim_existing-IsIndexed env input id (some t) =
      ground (arith, commit-IsIndexed env t.id (claimed env input t) refl)

  claim_target-IsIndexed :
      (env : Env) (input : ClaimTaskInput) (target : Option String)
      → IsIndexed (claim_target env input target s).1.tasks
  unfolding claim_target
  claim_target-IsIndexed env input none = commit-IsIndexed env env.uuid (delegated env input) refl
  claim_target-IsIndexed env input (some id) =
      claim_existing-IsIndexed env input id (lookup id s.tasks)

pub mark_notified-IsIndexed :
    (ts : String) (ids : List String) (m : Dict Task)
    → IsIndexed m
    → IsIndexed (mark_notified ts ids m)
unfolding mark_notified
mark_notified-IsIndexed ts [] m h = h
mark_notified-IsIndexed ts (id ∷ ids) m h = elim (Option-cases (lookup id m)) [
  | inl e ↦ rw e (mark_notified-IsIndexed ts ids m h)
  | inr (t, e) ↦
      rw e
        (mark_notified-IsIndexed ts ids _ (insert-IsIndexed id _ m (lookup-IsIndexed id t m h e) h))
]

pub revive_all-IsIndexed :
    (ts : String) (rest : List Task) (m : Dict Task)
    → IsIndexed m
    → IsIndexed (revive_all ts rest m)
unfolding revive_all
revive_all-IsIndexed ts [] m h = h
revive_all-IsIndexed ts (t ∷ rest) m h =
    revive_all-IsIndexed ts rest _ (insert-IsIndexed t.id _ m refl h)

reset_listed-IsIndexed :
    (env : Env) (rest : List Task) (s : Store)
    → IsIndexed s.tasks
    → IsIndexed (reset_listed env rest s).1.tasks
unfolding reset_listed persist
reset_listed-IsIndexed env [] s h = h
reset_listed-IsIndexed env (t ∷ rest) s h =
    ground (arith, revive_all-IsIndexed env.now (t ∷ rest) s.tasks h)

pub step-IsIndexed :
    (env : Env) (op : Operation) (s : Store) → IsIndexed s.tasks → IsIndexed (step env op s).tasks
unfolding step create_task claim_task mark_parent_notified reset_dangling_tasks
step-IsIndexed env (create input) s h = commit-IsIndexed s h env env.uuid (created env input) refl
step-IsIndexed env (update id patch) s h = update_task-IsIndexed s h env id patch
step-IsIndexed env (claim input) s h = claim_target-IsIndexed s h env input input.task_id
step-IsIndexed env (settle id outcome w) s h = finish-IsIndexed s h env id outcome w
step-IsIndexed env (mark ids) s h = ground (arith, mark_notified-IsIndexed env.now ids s.tasks h)
step-IsIndexed env reset s h = reset_listed-IsIndexed env _ s h

-- Whatever operations run, and whichever of their writes to the disk fail, each key of the map
-- stays the id of its task and stands once.
pub run-IsIndexed :
    (ops : List (Env × Operation)) (s : Store) → IsIndexed s.tasks → IsIndexed (run ops s).tasks
unfolding run
run-IsIndexed [] s h = h
run-IsIndexed ((env, op) ∷ ops) s h = run-IsIndexed ops (step env op s) (step-IsIndexed env op s h)
