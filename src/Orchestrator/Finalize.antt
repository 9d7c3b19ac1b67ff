-- ===== src/Orchestrator/Finalize.antt =====
-- What a child's finalizer does that nothing interrupts.
use mathlib.Core.List.{Memᴰ}
use swain.Common.{
  ℕ, suc, String, true, false, ◌⊎◌, none, some, [], ◌∷◌, ◌++◌, ◌≡◌, refl, arith, ap, ◌∙◌, inl, inr,
  Bool-cases, str_eq, Dict, lookup, remove,
}
use swain.Tasks.{
  Task, Env, Terminal, done, broken, FinishTaskInput, finish, finished,
  pending_parent_notifications,
}
use swain.Tasks.Finish.{finish-awaits_parent, IsFinished, finished-IsFinished}
use swain.Orchestrator.{
  Orchestra, Cleanup, SubagentEvent, subagent_complete, subagent_failed, Child, settled, announced,
  rung,
}
use swain.Orchestrator.Fiber.{
  adjust, finish_input, outcome_event, settle, announce, ring, leave, finalize,
}

-- The worktree that the task keeps: that of the cleanup if it is retained, and none otherwise.
abbrev pub Retains : Cleanup → FinishTaskInput → Type 0
Retains cleanup w =
    ((cleanup.retained ≡ true)
      × (w.worktree_path ≡ cleanup.path)
      × (w.worktree_branch ≡ cleanup.branch))
    ⊎ ((cleanup.retained ≡ false) × (w.worktree_path ≡ none) × (w.worktree_branch ≡ none))

-- The event says what the outcome was, of which agent and of which task.
abbrev pub Tells : String → String → Terminal → FinishTaskInput → SubagentEvent → Type 0
Tells k id (done r) w e = e ≡ subagent_complete k id r w.worktree_path
Tells k id (broken x) w e = e ≡ subagent_failed k id x

finish_input-Retains :
    (cleanup : Cleanup) (d : ℕ)
    → Retains cleanup (finish_input cleanup d) × ((finish_input cleanup d).duration_ms ≡ some d)
finish_input-Retains cleanup d = elim (Bool-cases cleanup.retained) [
  | inl e ↦ rw e (inl (refl, refl, refl), refl)
  | inr e ↦ rw e (inr (refl, refl, refl), refl)
]

outcome_event-Tells :
    (k id : String) (outcome : Terminal) (cleanup : Cleanup) (d : ℕ)
    → Tells k id outcome (finish_input cleanup d) (outcome_event k id outcome cleanup)
outcome_event-Tells k id (done r) cleanup d = elim (Bool-cases cleanup.retained) [
  | inl e ↦ rw e refl
  | inr e ↦ rw e refl
]
outcome_event-Tells k id (broken x) cleanup d = refl

module _ {W : Type 0} where
  lookup-adjust :
      (k : String) (f : Child W → Child W) (c : Child W) (m : Dict (Child W))
      → lookup k m ≡ some c
      → lookup k (adjust k f m) ≡ some (f c)
  unfolding lookup adjust
  lookup-adjust k f c [] e = absurd (cc)
  lookup-adjust k f c ((j, d) ∷ m) e = elim (Bool-cases (str_eq j k)) [
    | inl same ↦ let is : d ≡ c = ground arith in rw (adjust, same, lookup, same, is) refl
    | inr other ↦
        let rest : lookup k m ≡ some c = ground arith in
        rw (adjust, other, lookup, other) (lookup-adjust k f c m rest)
  ]

  remove-adjust :
      (k : String) (f : Child W → Child W) (m : Dict (Child W))
      → remove k (adjust k f m) ≡ remove k m
  unfolding remove adjust
  remove-adjust k f [] = refl
  remove-adjust k f ((j, d) ∷ m) = elim (Bool-cases (str_eq j k)) [
    | inl same ↦ rw (adjust, same, remove, same) refl
    | inr other ↦ rw (adjust, other, remove, other) (ap (λ r. (j, d) ∷ r) (remove-adjust k f m))
  ]

  settle_found :
      (env : Env) (k : String) (outcome : Terminal) (cleanup : Cleanup) (duration : ℕ)
      (o : Orchestra W) (c : Child W)
      → lookup k o.active ≡ some c
      → settle env k outcome cleanup duration o ≡ record o {
        store = (finish env c.task_id outcome (finish_input cleanup duration) o.store).1;
        active = adjust k (λ d. record d { stage = settled outcome cleanup }) o.active;
      }
  unfolding settle
  settle_found env k outcome cleanup duration o c e = rw (settle, e) refl

  announce_found :
      (k : String) (outcome : Terminal) (cleanup : Cleanup) (o : Orchestra W) (c : Child W)
      → lookup k o.active ≡ some c
      → announce k outcome cleanup o ≡ record o {
        active = adjust k (λ d. record d { stage = announced }) o.active;
        events = o.events ++ outcome_event k c.task_id outcome cleanup ∷ [];
      }
  unfolding announce
  announce_found k outcome cleanup o c e = rw (announce, e) refl

  -- The finalizer of an active child whose task is owned and not yet shown to the parent puts the
  -- task among those that wait to be shown to the parent, also where the disk cannot be written:
  -- completed with the child's result or failed with its error, with the duration, and with the
  -- worktree if that is retained. It emits one event, a completion with the result and the path of
  -- a retained worktree or a failure with the error, rings once, and takes the child, and no other,
  -- off the active ones.
  pub finalize-effects :
      (env : Env) (k : String) (outcome : Terminal) (cleanup : Cleanup) (duration : ℕ)
      (o : Orchestra W) (c : Child W) (t : Task) (owner : String)
      → lookup k o.active ≡ some c
      → lookup c.task_id o.store.tasks ≡ some t
      → t.owner ≡ some owner
      → t.parent_notified_at ≡ none
      → let p = finalize env k outcome cleanup duration o in
        (u : Task) × Memᴰ u (pending_parent_notifications p.store)
        × (w : FinishTaskInput) × IsFinished env.now outcome w t u
        × Retains cleanup w
        × (w.duration_ms ≡ some duration)
        × (e : SubagentEvent) × (p.events ≡ o.events ++ e ∷ [])
        × Tells k c.task_id outcome w e
        × (p.completions ≡ suc o.completions)
        × (p.active ≡ remove k o.active)
  unfolding finalize ring leave
  finalize-effects env k outcome cleanup duration o c t owner here found owned untold =
      let w = finish_input cleanup duration in
      let f₁ : Child W → Child W = λ d. record d { stage = settled outcome cleanup } in
      let f₂ : Child W → Child W = λ d. record d { stage = announced } in
      let f₃ : Child W → Child W = λ d. record d { stage = rung } in
      let m₁ = adjust k f₁ o.active in
      let o₁ : Orchestra W = record o {
        store = (finish env c.task_id outcome w o.store).1;
        active = m₁;
      } in
      let m₂ = adjust k f₂ m₁ in
      let gone = remove-adjust k f₃ m₂ ∙ remove-adjust k f₂ m₁ ∙ remove-adjust k f₁ o.active in
      let told = finish-awaits_parent env c.task_id outcome w o.store t found owner owned untold in
      let (retains, timed) = finish_input-Retains cleanup duration in
      let tells = outcome_event-Tells k c.task_id outcome cleanup duration in
      rw
        (
          settle_found env k outcome cleanup duration o c here,
          announce_found k outcome cleanup o₁ (f₁ c) (lookup-adjust k f₁ c o.active here),
        )
        (
          finished env outcome w t,
          told,
          w,
          finished-IsFinished env outcome w t,
          retains,
          timed,
          outcome_event k c.task_id outcome cleanup,
          refl,
          tells,
          refl,
          gone,
        )
