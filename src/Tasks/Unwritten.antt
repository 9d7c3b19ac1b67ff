-- ===== src/Tasks/Unwritten.antt =====
-- What a claim leaves that the disk did not take.
use swain.Common.{
  String, true, some, List, ◌≡◌, refl, arith, All, lookup, insert, lookup-insert, eq_refl, ◌∙◌, ap,
  Option-cases, inl, inr,
}
use swain.Tasks.Run.{Operation, run}
use swain.Tasks.WellFormed.{IsIndexed, lookup-IsIndexed}
use swain.Tasks.Ownership.{owner_of, owner_of_found, Keeps, run-owned, claim_owned}
use swain.Tasks.{
  Task, in_progress, Store, Env, ClaimTaskInput, claimed, claim_task, claim_target, claim_existing,
  persist, err, already_owned, platform_error, is_some,
}

module _ (env : Env) (input : ClaimTaskInput) (id : String) (s : Store) where
  unwritten-existing :
      (t : Task)
      → (claim_existing env input id (some t) s).0 ≡ err platform_error
      → (claim_existing env input id (some t) s).1
        ≡ record s { tasks = insert t.id (claimed env input t) s.tasks }
  unfolding claim_existing persist
  unwritten-existing t h = ground arith

  -- The map holds the claimed task, and the file is the old one.
  unwritten-store :
      input.task_id ≡ some id
      → (claim_task env input s).0 ≡ err platform_error
      → IsIndexed s.tasks
      → (t : Task) × ((claim_task env input s).1
          ≡ record s { tasks = insert id (claimed env input t) s.tasks })
  unfolding claim_task claim_target claim_existing
  unwritten-store asked h i = elim (Option-cases (lookup id s.tasks)) [
    | inl e ↦ absurd (ground arith)
    | inr (t, e) ↦
        let here = lookup-IsIndexed id t s.tasks i e in
        let now : (claim_existing env input id (some t) s).0 ≡ err platform_error = ground arith in
        (
          t,
          rw (asked, e)
              (unwritten-existing t now
                ∙ ap (λ k. record s { tasks = insert k (claimed env input t) s.tasks }) here),
        )
  ]

-- In a store whose keys are the ids of its tasks, each once, a claim of a task that fails with a
-- platform error leaves the file as it was, but the task in progress with the claimant as its
-- owner; after any operations but the reset, whose new ids are fresh, each later claim of the task
-- fails as already owned and changes nothing.
pub claim_task_unwritten :
    (env env' : Env) (input input' : ClaimTaskInput) (id : String) (s : Store)
    (ops : List (Env × Operation))
    → IsIndexed s.tasks
    → input.task_id ≡ some id
    → (claim_task env input s).0 ≡ err platform_error
    → All (Keeps id) ops
    → input'.task_id ≡ some id
    → let after = (claim_task env input s).1 in
      let later = run ops after in
      (after.file ≡ s.file)
      × (u : Task) × (lookup id after.tasks ≡ some u)
      × (u.status ≡ in_progress)
      × (u.owner ≡ some input.owner)
      × (o : String) × (claim_task env' input' later ≡ (err (already_owned id o), later))
claim_task_unwritten env env' input input' id s ops i asked h keeps again =
    let (t, is) = unwritten-store env input id s asked h i in
    let u = claimed env input t in
    let found : lookup id (claim_task env input s).1.tasks ≡ some u =
      ap (λ x. lookup id x.tasks) is ∙ lookup-insert id id u s.tasks ∙ rw (eq_refl id) refl in
    let owned : is_some (owner_of id (claim_task env input s).1.tasks) ≡ true =
      ap is_some (owner_of_found id _ u found) in
    let refused = claim_owned env' input' id _ again (run-owned id ops _ keeps owned) in
    (ap (λ x. x.file) is, u, found, refl, refl, refused.0, refused.1)
