-- ===== src/Orchestrator/Apart.antt =====
-- Lists of children of which no two have one task, and each task has an owner.
use swain.Common.{
  All-insert, All-remove, suc, ◌≤◌, String, true, [], ◌∷◌, ◌≡◌, refl, ◌≢◌, arith, sym, inl, inr,
  Bool-cases, str_eq, All, Dict, insert, remove, length,
}
use swain.Tasks.{Store, Env, is_some}
use swain.Tasks.Run.{Operation, step}
use swain.Tasks.WellFormed.{IsIndexed}
use swain.Tasks.Ownership.{Keeps, owner_of, step-owned}
use swain.Orchestrator.{Orchestra, Child}
use swain.Orchestrator.Fiber.{adjust}

module _ {W : Type 0} where
  -- No two children have one task, and each child's task has an owner.
  abbrev pub AreApart : Dict (Child W) → Type 0
  AreApart [] = Unit
  AreApart ((k, c) ∷ m) = All (λ e. c.task_id ≢ e.1.task_id) m × AreApart m

  abbrev pub AreOwned : Dict (Child W) → Store → Type 0
  AreOwned m s = All (λ e. is_some (owner_of e.1.task_id s.tasks) ≡ true) m

  pub record IsSound (o : Orchestra W) : Type 0 where
    pub bounded : length o.active ≤ o.max
    pub apart : AreApart o.active
    pub owned : AreOwned o.active o.store
    pub indexed : IsIndexed o.store.tasks

  pub insert-AreApart :
      (k : String) (c : Child W) (m : Dict (Child W))
      → All (λ e. c.task_id ≢ e.1.task_id) m
      → AreApart m
      → AreApart (insert k c m)
  unfolding insert
  insert-AreApart k c [] new h = (tt, tt)
  insert-AreApart k c ((j, d) ∷ m) new h = elim (Bool-cases (str_eq j k)) [
    | inl e ↦ rw e (new.1, h.1)
    | inr e ↦ rw e (
      All-insert (λ x. d.task_id ≢ x.task_id) k c m (λ same. new.0 (sym same)) h.0,
      insert-AreApart k c m new.1 h.1,
    )
  ]

  pub length-insert :
      (k : String) (c : Child W) (m : Dict (Child W)) → length (insert k c m) ≤ suc (length m)
  unfolding insert
  length-insert k c [] = omega arith
  length-insert k c ((j, d) ∷ m) = elim (Bool-cases (str_eq j k)) [
    | inl e ↦ rw e (omega arith)
    | inr e ↦ rw e (omega (arith, length-insert k c m))
  ]

  -- A change that keeps the tasks.
  module _ (f : Child W → Child W) (same : (c : Child W) → (f c).task_id ≡ c.task_id)
      (k : String) where
    pub All-adjust :
        (P : String → Type 0) (m : Dict (Child W))
        → All (λ e. P e.1.task_id) m
        → All (λ e. P e.1.task_id) (adjust k f m)
    unfolding adjust
    All-adjust P [] h = tt
    All-adjust P ((j, c) ∷ m) h = elim (Bool-cases (str_eq j k)) [
      | inl e ↦ rw (e, same c) h
      | inr e ↦ rw e (h.0, All-adjust P m h.1)
    ]

    pub adjust-AreApart : (m : Dict (Child W)) → AreApart m → AreApart (adjust k f m)
    unfolding adjust
    adjust-AreApart [] h = tt
    adjust-AreApart ((j, c) ∷ m) h = elim (Bool-cases (str_eq j k)) [
      | inl e ↦ rw (e, same c) h
      | inr e ↦ rw e (All-adjust (λ id. c.task_id ≢ id) m h.0, adjust-AreApart m h.1)
    ]

    pub length-adjust : (m : Dict (Child W)) → length (adjust k f m) ≡ length m
    unfolding adjust
    length-adjust [] = refl
    length-adjust ((j, c) ∷ m) = elim (Bool-cases (str_eq j k)) [
      | inl e ↦ rw e refl
      | inr e ↦ rw (e, length-adjust m) refl
    ]

  pub remove-AreApart : (k : String) (m : Dict (Child W)) → AreApart m → AreApart (remove k m)
  unfolding remove
  remove-AreApart k [] h = tt
  remove-AreApart k ((j, d) ∷ m) h = elim (Bool-cases (str_eq j k)) [
    | inl e ↦ rw e h.1
    | inr e ↦ rw e (All-remove (λ x. d.task_id ≢ x.task_id) k m h.0, remove-AreApart k m h.1)
  ]

  pub length-remove : (k : String) (m : Dict (Child W)) → length (remove k m) ≤ length m
  unfolding remove
  length-remove k [] = omega arith
  length-remove k ((j, d) ∷ m) = elim (Bool-cases (str_eq j k)) [
    | inl e ↦ rw e (omega arith)
    | inr e ↦ rw e (omega (arith, length-remove k m))
  ]

  -- A write to the graph that keeps the owners of the children's tasks.
  pub step-AreOwned :
      (env : Env) (op : Operation) (m : Dict (Child W)) (s : Store)
      → All (λ e. Keeps e.1.task_id (env, op)) m
      → AreOwned m s
      → AreOwned m (step env op s)
  step-AreOwned env op [] s k h = tt
  step-AreOwned env op ((j, c) ∷ m) s k h =
      (step-owned c.task_id env op s k.0 h.0, step-AreOwned env op m s k.1 h.1)
