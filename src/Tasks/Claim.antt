-- ===== src/Tasks/Claim.antt =====
-- When `claimTask` hands a task to a subagent, and what it then records.
use swain.Common.{
  String, true, not, none, some, List, [], ◌∷◌, ◌≡◌, refl, ◌≢◌, ◌↔◌, arith, All, Dict, lookup,
  insert, filter, sym, ◌∙◌, Option-cases, inl, inr,
}
use swain.Tasks.{
  Task, TaskStatus, completed, Store, Env, TaskError, Outcome, ok, err, platform_error,
  ClaimTaskInput, claimed, claim_task, claim_target, claim_existing, blocking_deps, is_done,
  is_completed, persist, body_of,
}

-- Every task that `deps` names is in the map and completed.
abbrev pub AreCompleted : Dict Task → List String → Type 0
AreCompleted m deps =
    All (λ dep. (t : Task) × (lookup dep m ≡ some t) × (t.status ≡ completed)) deps

is_completed→ : (st : TaskStatus) → is_completed st ≡ true → st ≡ completed
is_completed→ st e = ground arith

is_done→ :
    (m : Dict Task) (dep : String)
    → is_done m dep ≡ true
    → (t : Task) × (lookup dep m ≡ some t) × (t.status ≡ completed)
unfolding is_done
is_done→ m dep h = elim (Option-cases (lookup dep m)) [
  | inl e ↦ cc (rw (e, is_done) at h)
  | inr (t, e) ↦ (t, e, is_completed→ t.status (rw (e, is_done) at h))
]

→is_done :
    (m : Dict Task) (dep : String) (t : Task)
    → lookup dep m ≡ some t
    → t.status ≡ completed
    → is_done m dep ≡ true
unfolding is_done
→is_done m dep t e f = rw (e, is_done) (rw f refl)

filter-not-done→ :
    (m : Dict Task) (deps : List String)
    → filter (λ dep. not (is_done m dep)) deps ≡ []
    → AreCompleted m deps
filter-not-done→ m [] h = tt
filter-not-done→ m (dep ∷ deps) h =
    let here : is_done m dep ≡ true = ground arith in
    let later : filter (λ d. not (is_done m d)) deps ≡ [] = ground arith in
    (is_done→ m dep here, filter-not-done→ m deps later)

filter-not-done← :
    (m : Dict Task) (deps : List String)
    → AreCompleted m deps
    → filter (λ dep. not (is_done m dep)) deps ≡ []
filter-not-done← m [] h = refl
filter-not-done← m (dep ∷ deps) h =
    rw (→is_done m dep h.0.0 h.0.1 h.0.2) (filter-not-done← m deps h.1)

-- What a granted claim returns and leaves.
abbrev pub granted : Env → ClaimTaskInput → Task → Store → Outcome Task × Store
granted env input t s =
    let after = insert t.id (claimed env input t) s.tasks in
    (ok (claimed env input t), record { tasks = after; file = some (body_of env after) })

module _ (env : Env) (input : ClaimTaskInput) (id : String) (s : Store) (t : Task) where
  claim_task-existing :
      input.task_id ≡ some id
      → lookup id s.tasks ≡ some t
      → claim_task env input s ≡ claim_existing env input id (some t) s
  unfolding claim_task claim_target
  claim_task-existing asked found = cc

  granted→ :
      claim_existing env input id (some t) s ≡ granted env input t s
      → (t.owner ≡ none) × AreCompleted s.tasks t.blocked_by
  unfolding claim_existing blocking_deps
  granted→ e =
      let free : t.owner ≡ none = ground arith in
      let clear : filter (λ dep. not (is_done s.tasks dep)) t.blocked_by ≡ [] = ground arith in
      (free, filter-not-done→ s.tasks t.blocked_by clear)

  →granted :
      env.written ≡ true
      → t.owner ≡ none
      → AreCompleted s.tasks t.blocked_by
      → claim_existing env input id (some t) s ≡ granted env input t s
  unfolding claim_existing blocking_deps persist
  →granted written free clear = ground (arith, filter-not-done← s.tasks t.blocked_by clear)

  -- With the disk writable, a claim of the present task `t` is granted exactly if `t` has no owner
  -- and every task that it waits for is completed. Granted, the task is in progress with the
  -- claimant as its owner, in the result, in the map and in the file.
  pub claim_task-granted_iff :
      env.written ≡ true
      → input.task_id ≡ some id
      → lookup id s.tasks ≡ some t
      → (claim_task env input s ≡ granted env input t s)
        ↔ ((t.owner ≡ none) × AreCompleted s.tasks t.blocked_by)
  claim_task-granted_iff written asked found =
      let e = claim_task-existing asked found in
      ((λ g. granted→ (sym e ∙ g)), (λ h. e ∙ →granted written h.0 h.1))

-- A claim that fails for another reason than the disk changes nothing at all.
pub claim_task_refused :
    (env : Env) (input : ClaimTaskInput) (s : Store) (e : TaskError)
    → (claim_task env input s).0 ≡ err e
    → e ≢ platform_error
    → (claim_task env input s).1 ≡ s
unfolding claim_task claim_target claim_existing persist
claim_task_refused env input s e h other = ground arith
