-- ===== src/Orchestrator/Sound.antt =====
-- The concurrency limit holds, and no task is run by two agents.
use swain.Common.{
  All-insert, All-remove, ℕ, suc, ◌<◌, String, true, Option, List, [], ◌∷◌, ◌≡◌, refl, ◌≢◌, arith,
  inl, inr, ◌⊎◌, Bool-cases, Option-cases, All, All-map, lookup, length, leb, Option,
}
use swain.Llms.Messages.{Json}
use swain.Tasks.{
  AgentType, TaskError, Store, Env, Outcome, ok, err, claim_task, ClaimTaskInput, Terminal, is_some,
}
use swain.Tasks.Run.{Operation, claim, settle as settle_task, step}
use swain.Tasks.WellFormed.{IsIndexed, step-IsIndexed}
use swain.Tasks.Ownership.{Keeps, owner_of, claim_task-owned, claim_task-apart}
use swain.Agent.Tools.{Attempt, success, failure}
use swain.Orchestrator.{
  Orchestra, ParentRunContext, SpawnEnv, SpawnInput, Cleanup, Child, settled, announced, rung,
  spawn, delegate, register, Worktree, make_orchestrator, worktree_for,
}
use swain.Orchestrator.Fiber.{adjust, finish_input, progress, settle, announce, ring, leave}
use swain.Orchestrator.Steps.{
  IsFresh, Step, spawns, progresses, settles, announces, rings, leaves, interrupts, writes, Reach,
  here, next,
}
use swain.Orchestrator.Apart.{
  IsSound, insert-AreApart, length-insert, All-adjust, adjust-AreApart, length-adjust,
  remove-AreApart, length-remove, step-AreOwned,
}

Outcome-cases {ℓ} :
    {A : Type ℓ} (r : Outcome A) → ((x : TaskError) × (r ≡ err x)) ⊎ ((a : A) × (r ≡ ok a))
Outcome-cases (ok a) = inr (a, refl)
Outcome-cases (err x) = inl (x, refl)

All-zip {ℓ κ μ} :
    {A : Type ℓ} (P : A → Type κ) (Q : A → Type μ) (xs : List A)
    → All P xs
    → All Q xs
    → All (λ x. P x × Q x) xs
All-zip P Q [] h k = tt
All-zip P Q (x ∷ xs) h k = ((h.0, k.0), All-zip P Q xs h.1 k.1)

module _ {W : Type 0} where
  adjust-IsSound :
      (f : Child W → Child W) (k : String) (o : Orchestra W)
      → ((c : Child W) → (f c).task_id ≡ c.task_id)
      → IsSound o
      → IsSound (record o { active = adjust k f o.active })
  adjust-IsSound f k o same h = record {
    bounded = rw (length-adjust f same k o.active) h.bounded;
    apart = adjust-AreApart f same k o.active h.apart;
    owned = All-adjust f same k (λ id. is_some (owner_of id o.store.tasks) ≡ true) o.active h.owned;
    indexed = h.indexed;
  }

  writes-IsSound :
      (env : Env) (op : Operation) (o : Orchestra W)
      → All (λ e. Keeps e.1.task_id (env, op)) o.active
      → IsSound o
      → IsSound (record o { store = step env op o.store })
  writes-IsSound env op o keeps h = record {
    bounded = h.bounded;
    apart = h.apart;
    owned = step-AreOwned env op o.active o.store keeps h.owned;
    indexed = step-IsIndexed env op o.store h.indexed;
  }

  -- The soundness does not look at events and doorbells.
  silent-IsSound :
      (o p : Orchestra W)
      → p.max ≡ o.max
      → p.store ≡ o.store
      → p.active ≡ o.active
      → IsSound o
      → IsSound p
  silent-IsSound o p m s a h = record {
    bounded = rw (m, a) h.bounded;
    apart = rw a h.apart;
    owned = rw (s, a) h.owned;
    indexed = rw s h.indexed;
  }

  settle-IsSound :
      (env : Env) (k : String) (outcome : Terminal) (cleanup : Cleanup) (duration : ℕ)
      (o : Orchestra W)
      → All (λ e. env.uuid ≢ e.1.task_id) o.active
      → IsSound o
      → IsSound (settle env k outcome cleanup duration o)
  unfolding settle step
  settle-IsSound env k outcome cleanup duration o fresh h =
      elim (Option-cases (lookup k o.active)) [
        | inl e ↦ rw (settle, e) h
        | inr (c, e) ↦
            rw (settle, e)
              (adjust-IsSound (λ d. record d { stage = settled outcome cleanup }) k _ (λ d. refl)
                (writes-IsSound env (settle_task c.task_id outcome (finish_input cleanup duration))
                  o fresh h))
      ]

module _ {W : Type 0} (command_of : Json → String) (system_prompt : AgentType → String)
    (text_of_error : TaskError → String) where
  -- A claim's outcome is registered.
  register-IsSound :
      (parent : ParentRunContext W) (env : SpawnEnv) (input : SpawnInput)
      (worktree : Option Worktree) (request : ClaimTaskInput) (o : Orchestra W)
      → IsFresh command_of system_prompt text_of_error env.task_env o
      → length o.active < o.max
      → IsSound o
      → IsSound
          (register command_of system_prompt text_of_error parent env input worktree
            (claim_task env.task_env request o.store)
            o).1
  unfolding register step
  register-IsSound parent env input worktree request o fresh room h =
      let later = writes-IsSound env.task_env (claim request) o fresh h in
      elim (Outcome-cases (claim_task env.task_env request o.store).0) [
        | inl (x, bad) ↦ rw bad later
        | inr (t, good) ↦
            let apart =
              All-map o.active
                (λ e k.
                  claim_task-apart env.task_env request o.store t e.1.task_id h.indexed k.0 k.1
                    good)
                (All-zip _ _ o.active h.owned fresh) in
            let owned = claim_task-owned env.task_env request o.store t good in
            rw good (record {
              bounded = omega (arith, room, length-insert env.agent_id _ o.active);
              apart = insert-AreApart env.agent_id _ o.active apart h.apart;
              owned = All-insert _ env.agent_id _ o.active owned later.owned;
              indexed = later.indexed;
            })
      ]

  delegate-IsSound :
      (parent : ParentRunContext W) (env : SpawnEnv) (input : SpawnInput)
      (made : Attempt (Option Worktree)) (o : Orchestra W)
      → IsFresh command_of system_prompt text_of_error env.task_env o
      → length o.active < o.max
      → IsSound o
      → IsSound (delegate command_of system_prompt text_of_error parent env input made o).1
  unfolding delegate
  delegate-IsSound parent env input (failure e) o fresh room h = h
  delegate-IsSound parent env input (success worktree) o fresh room h =
      register-IsSound parent env input worktree _ o fresh room h

  spawn-IsSound :
      (parent : ParentRunContext W) (env : SpawnEnv) (input : SpawnInput) (o : Orchestra W)
      → IsFresh command_of system_prompt text_of_error env.task_env o
      → IsSound o
      → IsSound (spawn command_of system_prompt text_of_error parent env input o).1
  unfolding spawn
  spawn-IsSound parent env input o fresh h = elim (Bool-cases (leb o.max (length o.active))) [
    | inl full ↦ rw full h
    | inr free ↦
        let room : length o.active < o.max = ground arith in
        rw free (
          delegate-IsSound parent env input (worktree_for input.agent_type env.worktree) o fresh
            room h)
  ]

  step-IsSound :
      (o p : Orchestra W) → Step command_of system_prompt text_of_error o p → IsSound o → IsSound p
  unfolding progress announce ring leave
  step-IsSound _ _ (spawns parent env input o fresh) h = spawn-IsSound parent env input o fresh h
  step-IsSound _ _ (progresses k tool input o) h = elim (Option-cases (lookup k o.active)) [
    | inl e ↦ rw (progress, e) h
    | inr (c, e) ↦
        rw (progress, e)
          (silent-IsSound _ _ refl refl refl
            (adjust-IsSound (λ d. record d { tool_uses = suc d.tool_uses }) k o (λ d. refl) h))
  ]
  step-IsSound _ _ (settles env k c outcome cleanup duration o fresh found at) h =
      settle-IsSound env k outcome cleanup duration o fresh h
  step-IsSound _ _ (announces k c outcome cleanup o found at) h =
      rw (announce, found)
        (silent-IsSound _ _ refl refl refl
          (adjust-IsSound (λ d. record d { stage = announced }) k o (λ d. refl) h))
  step-IsSound _ _ (rings k c o found at) h =
      silent-IsSound _ _ refl refl refl
        (adjust-IsSound (λ d. record d { stage = rung }) k o (λ d. refl) h)
  step-IsSound _ _ (leaves k o) h = record {
    bounded = omega (arith, length-remove k o.active, h.bounded);
    apart = remove-AreApart k o.active h.apart;
    owned = All-remove _ k o.active h.owned;
    indexed = h.indexed;
  }
  step-IsSound _ _ (interrupts o) h = record {
    bounded = omega arith;
    apart = tt;
    owned = tt;
    indexed = h.indexed;
  }
  step-IsSound _ _ (writes env op o keeps) h = writes-IsSound env op o keeps h

  -- From a new orchestrator over a task graph that is indexed by the tasks' ids, however spawns, the
  -- steps of the children's finalizers, interruptions and the parent's writes interleave, as long as
  -- new tasks get ids that no running task has and dangling tasks are not reset: there are never more
  -- children than the limit, no two of them have one task, and each one's task has an owner.
  pub Reach-IsSound :
      (max : Option ℕ) (store : Store) (o : Orchestra W)
      → IsIndexed store.tasks
      → Reach command_of system_prompt text_of_error (make_orchestrator max store) o
      → IsSound o
  Reach-IsSound max store _ i here = record {
    bounded = omega arith;
    apart = tt;
    owned = tt;
    indexed = i;
  }
  Reach-IsSound max store _ i (next p q r s) = step-IsSound p q s (Reach-IsSound max store p i r)
