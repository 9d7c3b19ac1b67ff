-- ===== src/Tasks/Ownership.antt =====
-- A task is delegated at most once: its owner stays until `resetDanglingTasks`.
use swain.Common.{
  String, true, Option, none, some, List, [], ◌∷◌, ◌≡◌, refl, ◌≢◌, arith, eq_iff, eq_refl, All,
  Dict, lookup, insert, lookup-insert, sym, ap, ◌∙◌, ◌⊎◌, Option-cases, inl, inr, if◌then◌else◌,
  str_eq,
}
use swain.Tasks.WellFormed.{IsIndexed, lookup-IsIndexed}
use swain.Tasks.Run.{Operation, create, update, claim, settle, mark, reset, step, run}
use swain.Tasks.{
  Task, Store, Env, created, claimed, delegated, patched, noted, UpdateTaskInput, ok, err,
  already_owned, ClaimTaskInput, Terminal, done, broken, FinishTaskInput, finished, commit,
  create_task, update_task, claim_task, claim_target, claim_existing, finish, mark_notified,
  mark_parent_notified, persist, is_some,
}

-- The owner of the task `id`, `none` where there is no task or no owner.
pub owner_of : String → Dict Task → Option String
owner_of id m = elim (lookup id m) [ none ↦ none | some t ↦ t.owner ]

owner_of-insert :
    (id k : String) (t : Task) (m : Dict Task)
    → owner_of id (insert k t m) ≡ (if str_eq k id then t.owner else owner_of id m)
unfolding owner_of
owner_of-insert id k t m = ground (arith, lookup-insert k id t m)

pub owner_of_found :
    (id : String) (m : Dict Task) (t : Task) → lookup id m ≡ some t → owner_of id m ≡ t.owner
unfolding owner_of
owner_of_found id m t e = rw (e, owner_of) refl

patched-owned :
    (env : Env) (patch : UpdateTaskInput) (t : Task)
    → is_some t.owner ≡ true
    → is_some (patched env patch t).owner ≡ true
patched-owned env patch t h = ground arith

owner-finished :
    (env : Env) (outcome : Terminal) (w : FinishTaskInput) (t : Task)
    → (finished env outcome w t).owner ≡ t.owner
owner-finished env (done r) w t = refl
owner-finished env (broken e) w t = refl

-- Writes that keep an owner: at another key, or of a task that has one.
module _ (id : String) (s : Store) (owned : is_some (owner_of id s.tasks) ≡ true) where
  commit-owned :
      (env : Env) (k : String) (t : Task)
      → (k ≡ id → is_some t.owner ≡ true)
      → is_some (owner_of id (commit env k t s).1.tasks) ≡ true
  unfolding commit persist
  commit-owned env k t h = ground (arith, eq_iff k id, owner_of-insert id k t s.tasks)

  update_task-owned :
      (env : Env) (k : String) (patch : UpdateTaskInput)
      → is_some (owner_of id (update_task env k patch s).1.tasks) ≡ true
  unfolding update_task
  update_task-owned env k patch = elim (Option-cases (lookup k s.tasks)) [
    | inl e ↦ rw (e, update_task) owned
    | inr (t, e) ↦
        rw (e, update_task)
          (commit-owned env k (patched env patch t)
            (λ same. patched-owned env patch t (kept k t e same)))
  ]
    where
      kept : (k : String) (t : Task) → lookup k s.tasks ≡ some t → k ≡ id → is_some t.owner ≡ true
      kept k t e same = rw (owner_of_found id s.tasks t (rw same at e)) at owned

  finish-owned :
      (env : Env) (k : String) (outcome : Terminal) (w : FinishTaskInput)
      → is_some (owner_of id (finish env k outcome w s).1.tasks) ≡ true
  unfolding finish
  finish-owned env k outcome w = elim (Option-cases (lookup k s.tasks)) [
    | inl e ↦ rw (e, finish) owned
    | inr (t, e) ↦
        rw (e, finish)
          (commit-owned env k (finished env outcome w t) (λ same.
            rw (owner-finished env outcome w t)
              (rw (owner_of_found id s.tasks t (rw same at e)) at owned)))
  ]

  claim_existing-owned :
      (env : Env) (input : ClaimTaskInput) (k : String) (found : Option Task)
      → is_some (owner_of id (claim_existing env input k found s).1.tasks) ≡ true
  unfolding claim_existing
  claim_existing-owned env input k none = owned
  claim_existing-owned env input k (some t) =
      ground (arith, commit-owned env t.id (claimed env input t) (λ _. refl))

  claim_target-owned :
      (env : Env) (input : ClaimTaskInput) (target : Option String)
      → is_some (owner_of id (claim_target env input target s).1.tasks) ≡ true
  unfolding claim_target
  claim_target-owned env input none = commit-owned env env.uuid (delegated env input) (λ _. refl)
  claim_target-owned env input (some k) = claim_existing-owned env input k (lookup k s.tasks)

mark_notified-owned :
    (id ts : String) (ids : List String) (m : Dict Task)
    → is_some (owner_of id m) ≡ true
    → is_some (owner_of id (mark_notified ts ids m)) ≡ true
unfolding mark_notified
mark_notified-owned id ts [] m h = h
mark_notified-owned id ts (k ∷ ids) m h = elim (Option-cases (lookup k m)) [
  | inl e ↦ rw e (mark_notified-owned id ts ids m h)
  | inr (t, e) ↦ rw e (
      mark_notified-owned id ts ids (insert k (noted ts t) m)
        (ground (arith, eq_iff k id, owner_of-insert id k (noted ts t) m, owner_of_found k m t)))
]

-- Every operation but the reset, and a new task's UUID is not `id`.
abbrev pub Keeps : String → Env × Operation → Type 0
Keeps id (env, reset) = ⊥
Keeps id (env, _) = env.uuid ≢ id

pub step-owned :
    (id : String) (env : Env) (op : Operation) (s : Store)
    → Keeps id (env, op)
    → is_some (owner_of id s.tasks) ≡ true
    → is_some (owner_of id (step env op s).tasks) ≡ true
unfolding step create_task claim_task mark_parent_notified persist
step-owned id env (create input) s k h =
    commit-owned id s h env env.uuid (created env input) (λ e. absurd (k e))
step-owned id env (update j patch) s k h = update_task-owned id s h env j patch
step-owned id env (claim input) s k h = claim_target-owned id s h env input input.task_id
step-owned id env (settle j outcome w) s k h = finish-owned id s h env j outcome w
step-owned id env (mark ids) s k h = ground (arith, mark_notified-owned id env.now ids s.tasks h)
step-owned id env reset s k h = absurd k

pub run-owned :
    (id : String) (ops : List (Env × Operation)) (s : Store)
    → All (Keeps id) ops
    → is_some (owner_of id s.tasks) ≡ true
    → is_some (owner_of id (run ops s).tasks) ≡ true
unfolding run
run-owned id [] s k h = h
run-owned id ((env, op) ∷ ops) s k h =
    run-owned id ops (step env op s) k.1 (step-owned id env op s k.0 h)

-- The claimed task is the one written, under its own id.
commit-ok-owned :
    (env : Env) (u t : Task) (s : Store)
    → is_some u.owner ≡ true
    → (commit env u.id u s).0 ≡ ok t
    → is_some (owner_of t.id (commit env u.id u s).1.tasks) ≡ true
unfolding commit persist
commit-ok-owned env u t s h e = ground (arith, owner_of-insert u.id u.id u s.tasks, eq_refl u.id)

claim_existing-ok-owned :
    (env : Env) (input : ClaimTaskInput) (id : String) (found : Option Task) (s : Store) (t : Task)
    → (claim_existing env input id found s).0 ≡ ok t
    → is_some (owner_of t.id (claim_existing env input id found s).1.tasks) ≡ true
unfolding claim_existing
claim_existing-ok-owned env input id none s t h = cc
claim_existing-ok-owned env input id (some u) s t h =
    ground (arith, commit-ok-owned env (claimed env input u) t s refl)

claim_target-ok-owned :
    (env : Env) (input : ClaimTaskInput) (target : Option String) (s : Store) (t : Task)
    → (claim_target env input target s).0 ≡ ok t
    → is_some (owner_of t.id (claim_target env input target s).1.tasks) ≡ true
unfolding claim_target
claim_target-ok-owned env input none s t h = commit-ok-owned env (delegated env input) t s refl h
claim_target-ok-owned env input (some id) s t h =
    claim_existing-ok-owned env input id (lookup id s.tasks) s t h

-- A claim of an owned task is refused with its owner.
pub claim_owned :
    (env : Env) (input : ClaimTaskInput) (id : String) (s : Store)
    → input.task_id ≡ some id
    → is_some (owner_of id s.tasks) ≡ true
    → (o : String) × (claim_task env input s ≡ (err (already_owned id o), s))
unfolding claim_task claim_target claim_existing owner_of
claim_owned env input id s asked h = elim (Option-cases (owner_of id s.tasks)) [
  | inl e ↦ absurd (cc)
  | inr (o, e) ↦ (o, ground arith)
]

commit-ok : (env : Env) (k : String) (u t : Task) (s : Store) → (commit env k u s).0 ≡ ok t → t ≡ u
unfolding commit persist
commit-ok env k u t s h = ground arith

claim_existing-id :
    (env : Env) (input : ClaimTaskInput) (k : String) (u t : Task) (s : Store)
    → (claim_existing env input k (some u) s).0 ≡ ok t
    → t.id ≡ u.id
unfolding claim_existing
claim_existing-id env input k u t s h = ground (arith, commit-ok env u.id (claimed env input u) t s)

claim_target-apart :
    (env : Env) (input : ClaimTaskInput) (target : Option String) (s : Store) (t : Task)
    → IsIndexed s.tasks
    → (claim_target env input target s).0 ≡ ok t
    → (t.id ≡ env.uuid) ⊎ (target ≡ some t.id)
unfolding claim_target claim_existing
claim_target-apart env input none s t i h =
    inl (ap (λ u. u.id) (commit-ok env env.uuid (delegated env input) t s h))
claim_target-apart env input (some k) s t i h = elim (Option-cases (lookup k s.tasks)) [
  | inl e ↦ absurd (ground arith)
  | inr (u, e) ↦
      let now : (claim_existing env input k (some u) s).0 ≡ ok t = ground arith in
      inr
        (ap some (sym (claim_existing-id env input k u t s now ∙ lookup-IsIndexed k u s.tasks i e)))
]

-- The task that a claim grants is owned behind it, and is none that was owned before it.
pub claim_task-owned :
    (env : Env) (input : ClaimTaskInput) (s : Store) (t : Task)
    → (claim_task env input s).0 ≡ ok t
    → is_some (owner_of t.id (claim_task env input s).1.tasks) ≡ true
unfolding claim_task
claim_task-owned env input s t h = claim_target-ok-owned env input input.task_id s t h

pub claim_task-apart :
    (env : Env) (input : ClaimTaskInput) (s : Store) (t : Task) (id : String)
    → IsIndexed s.tasks
    → is_some (owner_of id s.tasks) ≡ true
    → env.uuid ≢ id
    → (claim_task env input s).0 ≡ ok t
    → t.id ≢ id
unfolding claim_task
claim_task-apart env input s t id i h fresh e same =
    elim (claim_target-apart env input input.task_id s t i e) [
      | inl new ↦ fresh (sym new ∙ same)
      | inr asked ↦
          let (o, refused) = claim_owned env input id s (asked ∙ ap some same) h in
          absurd (ground arith)
    ]

-- A task that a claim has granted is not granted again: after any operations but the reset, whose
-- new ids are fresh, a claim of it fails as already owned and changes nothing.
pub claim_once :
    (env env' : Env) (input input' : ClaimTaskInput) (s : Store) (t : Task)
    (ops : List (Env × Operation))
    → (claim_task env input s).0 ≡ ok t
    → All (Keeps t.id) ops
    → input'.task_id ≡ some t.id
    → let later = run ops (claim_task env input s).1 in
      (o : String) × (claim_task env' input' later ≡ (err (already_owned t.id o), later))
unfolding claim_task
claim_once env env' input input' s t ops granted keeps asked =
    claim_owned env' input' t.id _ asked
      (run-owned t.id ops _ keeps (claim_target-ok-owned env input input.task_id s t granted))
