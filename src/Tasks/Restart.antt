-- ===== src/Tasks/Restart.antt =====
-- What `tasks.json` holds after the operations, and what a restart loads from it.
use swain.Common.{
  String, true, Option, none, some, List, [], ◌∷◌, ◌++◌, ◌≡◌, refl, ◌≢◌, arith, eq_iff, All, Dict,
  lookup, insert, values, append_assoc, append-nil, sym, ◌∙◌, ap, All-append, map, Option-cases,
  inl, inr,
}
use swain.Tasks.Run.{Operation, create, update, claim, settle, mark, reset, step, run}
use swain.Tasks.WellFormed.{IsAbsent, IsIndexed, run-IsIndexed}
use swain.Tasks.Codec.{defined, decode_tasks-defined}
use swain.Tasks.Graph.{parsed, indexed}
use swain.Tasks.{
  Task, Field, task_fields, loaded, commit, created, patched, claimed, delegated, finished, Store,
  Env, ClaimTaskInput, index_from, load_task_store, persist, create_task, update_task, claim_task,
  claim_target, claim_existing, finish, mark_parent_notified, reset_listed, reset_dangling_tasks,
}

insert_of_IsAbsent :
    (k : String) (t : Task) (m : Dict Task) → IsAbsent k m → insert k t m ≡ m ++ (k, t) ∷ []
unfolding insert
insert_of_IsAbsent k t [] a = refl
insert_of_IsAbsent k t ((i, u) ∷ m) a = ground (arith, eq_iff i k, insert_of_IsAbsent k t m a.1)

-- No key of `m` stands in `acc`.
abbrev IsApart : Dict Task → Dict Task → Type 0
IsApart acc m = All (λ e. IsAbsent e.0 acc) m

IsApart-snoc :
    (k : String) (t : Task) (acc m : Dict Task)
    → IsAbsent k m
    → IsApart acc m
    → IsApart (acc ++ (k, t) ∷ []) m
IsApart-snoc k t acc [] a h = tt
IsApart-snoc k t acc ((i, u) ∷ m) a h = (
  All-append (λ e. e.0 ≢ i) acc ((k, t) ∷ []) h.0 ((λ e. a.0 (sym e)), tt),
  IsApart-snoc k t acc m a.1 h.1,
)

index_from-values :
    (acc m : Dict Task) → IsIndexed m → IsApart acc m → index_from acc (values m) ≡ acc ++ m
unfolding index_from values
index_from-values acc [] h a = sym (append-nil acc)
index_from-values acc ((k, t) ∷ m) h a =
    ap (λ d. index_from d (values m))
      (ap (λ j. insert j t acc) h.0 ∙ insert_of_IsAbsent k t acc a.0)
    ∙ index_from-values (acc ++ (k, t) ∷ []) m h.2 (IsApart-snoc k t acc m h.1 a.1)
    ∙ append_assoc acc ((k, t) ∷ []) m

IsApart-nil : (m : Dict Task) → IsApart [] m
IsApart-nil [] = tt
IsApart-nil (e ∷ m) = (tt, IsApart-nil m)

-- The file holds the text of the tasks of the map, in its order.
abbrev pub IsSaved : (List (Dict (Option Field)) → String) → Store → Type 0
IsSaved stringify s = s.file ≡ some (stringify (map task_fields (values s.tasks)))

-- The environment writes, and writes such texts.
abbrev pub Writes : (List (Dict (Option Field)) → String) → Env → Type 0
Writes stringify env = (env.written ≡ true) × (env.stringify ≡ stringify)

module _ (stringify : List (Dict (Option Field)) → String) where
  persist-IsSaved :
      {A : Type 0} (env : Env) (a : A) (s : Store)
      → Writes stringify env
      → IsSaved stringify (persist env a s).1
  unfolding persist
  persist-IsSaved env a s (written, same) =
      rw written (ap (λ f. some (f (map task_fields (values s.tasks)))) same)

  module _ (env : Env) (writes : Writes stringify env) (s : Store) (h : IsSaved stringify s) where
    commit-IsSaved : (k : String) (t : Task) → IsSaved stringify (commit env k t s).1
    unfolding commit
    commit-IsSaved k t = persist-IsSaved env t _ writes

    claim_existing-IsSaved :
        (input : ClaimTaskInput) (id : String) (found : Option Task)
        → IsSaved stringify (claim_existing env input id found s).1
    unfolding claim_existing
    claim_existing-IsSaved input id none = h
    claim_existing-IsSaved input id (some t) =
        ground (arith, commit-IsSaved t.id (claimed env input t))

    claim_target-IsSaved :
        (input : ClaimTaskInput) (target : Option String)
        → IsSaved stringify (claim_target env input target s).1
    unfolding claim_target
    claim_target-IsSaved input none = commit-IsSaved env.uuid (delegated env input)
    claim_target-IsSaved input (some id) = claim_existing-IsSaved input id (lookup id s.tasks)

    reset_listed-IsSaved : (rest : List Task) → IsSaved stringify (reset_listed env rest s).1
    unfolding reset_listed
    reset_listed-IsSaved [] = h
    reset_listed-IsSaved (t ∷ rest) = persist-IsSaved env (t ∷ rest) _ writes

    step-IsSaved : (op : Operation) → IsSaved stringify (step env op s)
    unfolding step create_task update_task claim_task finish mark_parent_notified
        reset_dangling_tasks
    step-IsSaved (create input) = commit-IsSaved env.uuid (created env input)
    step-IsSaved (update id patch) = elim (Option-cases (lookup id s.tasks)) [
      | inl e ↦ rw (step, update_task, e) h
      | inr (t, e) ↦ rw (step, update_task, e) (commit-IsSaved id (patched env patch t))
    ]
    step-IsSaved (claim input) = claim_target-IsSaved input input.task_id
    step-IsSaved (settle id outcome w) = elim (Option-cases (lookup id s.tasks)) [
      | inl e ↦ rw (step, finish, e) h
      | inr (t, e) ↦ rw (step, finish, e) (commit-IsSaved id (finished env outcome w t))
    ]
    step-IsSaved (mark ids) = persist-IsSaved env tt _ writes
    step-IsSaved reset = reset_listed-IsSaved _

  run-IsSaved :
      (ops : List (Env × Operation)) (s : Store)
      → All (λ o. Writes stringify o.0) ops
      → IsSaved stringify s
      → IsSaved stringify (run ops s)
  unfolding run
  run-IsSaved [] s w h = h
  run-IsSaved ((env, op) ∷ ops) s w h =
      run-IsSaved ops (step env op s) w.1 (step-IsSaved env w.0 s h op)

-- `parse` gives back the objects that `stringify` wrote, without the fields that are undefined.
abbrev pub Parses :
    (String → Option (List (Dict Field)))
    → (List (Dict (Option Field)) → String)
    → List (Dict (Option Field))
    → Type 0
Parses parse stringify objects = parse (stringify objects) ≡ some (map defined objects)

load_task_store-saved :
    (parse : String → Option (List (Dict Field))) (stringify : List (Dict (Option Field)) → String)
    (s : Store)
    → IsIndexed s.tasks
    → IsSaved stringify s
    → Parses parse stringify (map task_fields (values s.tasks))
    → load_task_store parse true s.file ≡ loaded s
unfolding load_task_store parsed indexed
load_task_store-saved parse stringify s h saved parses =
    let index : index_from [] (values s.tasks) ≡ s.tasks =
      index_from-values [] s.tasks h (IsApart-nil s.tasks) in
    ap (load_task_store parse true) saved
    ∙ rw (load_task_store, parsed, indexed, parses, decode_tasks-defined (values s.tasks), index)
        (λ i. loaded (record { tasks = s.tasks; file = sym saved i }))

-- From a store whose keys are the ids of its tasks, each once, and whose file holds the text of its
-- tasks: if every write to the disk succeeds, and `JSON.parse` gives back the objects that
-- `JSON.stringify` wrote last, without their undefined fields, then a restart that sees and reads
-- the file, after any operations, succeeds and loads the very store that they left, every field of
-- every task, in the same order.
pub load_task_store-run :
    (parse : String → Option (List (Dict Field))) (stringify : List (Dict (Option Field)) → String)
    (ops : List (Env × Operation)) (s : Store)
    → IsIndexed s.tasks
    → IsSaved stringify s
    → All (λ o. Writes stringify o.0) ops
    → Parses parse stringify (map task_fields (values (run ops s).tasks))
    → load_task_store parse true (run ops s).file ≡ loaded (run ops s)
load_task_store-run parse stringify ops s h saved w parses =
    load_task_store-saved parse stringify (run ops s) (run-IsIndexed ops s h)
      (run-IsSaved stringify ops s w saved) parses
