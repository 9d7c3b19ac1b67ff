-- ===== src/Tasks/Dangling.antt =====
-- What `resetDanglingTasks` makes of the graph after a crash.
use swain.Common.{
  String, Bool, true, false, some, List, [], ◌∷◌, ◌≡◌, refl, arith, eq_iff, eq_refl, All, Dict,
  lookup, insert, values, filter, lookup-insert, ◌∙◌, ap, Bool-cases, inl, inr, if◌then◌else◌,
  str_eq, any, filter-Memᴰ, lookup-Memᴰ, filter-All, All-map, any_of_Memᴰ, any-eq-false, ◌⊎◌, ◌≢◌,
  none, Option-cases,
}
use swain.Tasks.{
  Task, TaskStatus, pending, in_progress, completed, failed, is_in_progress, Store, Env,
  is_dangling, revived, revive_all, reset_listed, reset_dangling_tasks, persist,
}
use swain.Tasks.WellFormed.{IsIndexed, lookup-IsIndexed, values-All}

has_id : String → Task → Bool
has_id k t = str_eq t.id k

-- A key of none of the written tasks keeps its task.
lookup-revive_all_other :
    (ts : String) (rest : List Task) (m : Dict Task) (k : String)
    → any (has_id k) rest ≡ false
    → lookup k (revive_all ts rest m) ≡ lookup k m
unfolding revive_all has_id
lookup-revive_all_other ts [] m k h = refl
lookup-revive_all_other ts (t ∷ rest) m k h =
    lookup-revive_all_other ts rest (insert t.id (revived ts t) m) k (ground arith)
    ∙ ground (arith, lookup-insert t.id k (revived ts t) m)

-- At the key of the one task `u` among them that has it, the revived `u` stands.
lookup-revive_all_same :
    (ts : String) (rest : List Task) (m : Dict Task) (k : String) (u : Task)
    → All (λ t. t.id ≡ k → t ≡ u) rest
    → (any (has_id k) rest ≡ true) ⊎ (lookup k m ≡ some (revived ts u))
    → lookup k (revive_all ts rest m) ≡ some (revived ts u)
unfolding revive_all has_id
lookup-revive_all_same ts [] m k u all (inl h) = cc
lookup-revive_all_same ts [] m k u all (inr h) = h
lookup-revive_all_same ts (t ∷ rest) m k u all h =
    lookup-revive_all_same ts rest (insert t.id (revived ts t) m) k u all.1
      (elim (Bool-cases (str_eq t.id k)) [
        | inl same ↦
            let e = (eq_iff t.id k).0 same in
            inr (
              lookup-insert t.id k (revived ts t) m
              ∙ rw same (ap (λ x. some (revived ts x)) (all.0 e)))
        | inr other ↦ elim h [
          | inl later ↦ inl (rw other at later)
          | inr now ↦ inr (lookup-insert t.id k (revived ts t) m ∙ rw other now)
        ]
      ])

in_progress-cases :
    (st : TaskStatus)
    → ((st ≡ in_progress) × (is_in_progress st ≡ true))
      ⊎ ((is_in_progress st ≡ false) × (st ≢ in_progress))
in_progress-cases pending = inr (refl, λ e. cc e)
in_progress-cases in_progress = inl (refl, refl)
in_progress-cases completed = inr (refl, λ e. cc e)
in_progress-cases failed = inr (refl, λ e. cc e)

module _ (env : Env) (s : Store) (h : IsIndexed s.tasks) where
  abbrev dangling : List Task
  dangling = filter is_dangling (values s.tasks)

  -- Among the dangling tasks each id stands for the task of the map.
  dangling-IsIndexed : All (λ t. (lookup t.id s.tasks ≡ some t) × (is_dangling t ≡ true)) dangling
  dangling-IsIndexed =
      filter-All (λ t. lookup t.id s.tasks ≡ some t) is_dangling (values s.tasks)
        (values-All _ s.tasks h
          (λ k t e. ap (λ j. lookup j s.tasks) (lookup-IsIndexed k t s.tasks h e) ∙ e))

  lookup-revived :
      (k : String) (t : Task)
      → lookup k s.tasks ≡ some t
      → lookup k (revive_all env.now dangling s.tasks)
        ≡ some (if is_dangling t then revived env.now t else t)
  unfolding has_id
  lookup-revived k t e = elim (Bool-cases (is_dangling t)) [
    | inl d ↦ rw d (
        lookup-revive_all_same env.now dangling s.tasks k t
          (All-map dangling (λ u g same. ground (arith, g.0)) dangling-IsIndexed)
          (inl (
            any_of_Memᴰ (has_id k) t dangling
              (filter-Memᴰ is_dangling t _ (lookup-Memᴰ k t s.tasks e) d)
              (rw (lookup-IsIndexed k t s.tasks h e) (eq_refl k)))))
    | inr still ↦ rw still (
        lookup-revive_all_other env.now dangling s.tasks k (
          any-eq-false (has_id k) dangling
            (All-map dangling (λ u g. ground (arith, eq_iff u.id k)) dangling-IsIndexed))
        ∙ e)
  ]

  tasks-reset_listed :
      (rest : List Task) → (reset_listed env rest s).1.tasks ≡ revive_all env.now rest s.tasks
  unfolding reset_listed persist revive_all
  tasks-reset_listed [] = refl
  tasks-reset_listed (t ∷ rest) = ground arith

  lookup-reset :
      (k : String) (t : Task)
      → lookup k s.tasks ≡ some t
      → lookup k (reset_dangling_tasks env s).1.tasks
        ≡ some (if is_dangling t then revived env.now t else t)
  unfolding reset_dangling_tasks
  lookup-reset k t e = ap (lookup k) (tasks-reset_listed dangling) ∙ lookup-revived k t e

  -- Where the keys of the map are the ids of its tasks, each once: after the reset, each task that
  -- was in progress with an owner is pending, without an owner and without a worktree, with the
  -- time of the reset as that of its update, and is otherwise as it was; a task that was not in
  -- progress, or that had no owner, is as it was.
  pub lookup-reset_dangling_tasks :
      (k : String) (t : Task)
      → lookup k s.tasks ≡ some t
      → let found = lookup k (reset_dangling_tasks env s).1.tasks in
        ((t.status ≡ in_progress)
          × (o : String) × (t.owner ≡ some o)
          × (found
              ≡ some (record {
                id = t.id;
                subject = t.subject;
                description = t.description;
                status = pending;
                owner = none;
                blocked_by = t.blocked_by;
                agent_type = t.agent_type;
                result = t.result;
                error = t.error;
                worktree_path = none;
                worktree_branch = none;
                parent_notified_at = t.parent_notified_at;
                created_at = t.created_at;
                updated_at = env.now;
                duration_ms = t.duration_ms;
              })))
        ⊎ (((t.status ≢ in_progress) ⊎ (t.owner ≡ none)) × (found ≡ some t))
  unfolding is_dangling
  lookup-reset_dangling_tasks k t e =
      let after = lookup-reset k t e in
      elim (in_progress-cases t.status) [
        | inr idle ↦ inr (inl idle.1, after ∙ rw (is_dangling, idle.0) refl)
        | inl (busy, reads) ↦ elim (Option-cases t.owner) [
          | inl free ↦ inr (inr free, after ∙ rw (is_dangling, reads, free) refl)
          | inr (o, owned) ↦ inl (busy, o, owned, after ∙ rw (is_dangling, reads, owned) refl)
        ]
      ]
