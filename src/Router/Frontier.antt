-- ===== src/Router/Frontier.antt =====
-- Every target is on the Pareto frontier, or one that is dominates it.
use mathlib.Core.List.{Memᴰ}
use mathlib.Core.List as L
use swain.Common.{
  Bool, true, false, Option, none, some, List, ◌≡◌, refl, arith, inl, inr, ◌⊎◌, Bool-cases, All,
  All-map, filter-Memᴰ, any-eq-false, subst,
}
use swain.Router.{RoutableTarget, metrics, better, dominates, pareto_frontier}

-- The documented order of the numbers: `<=` is transitive.
module _ {Number : Type 0} (le : Number → Number → Bool)
    (le_trans : (a b c : Number) → le a b ≡ true → le b c ≡ true → le a c ≡ true) where
  better_trans :
      (a b c : Option (Number × Number))
      → better le a b ≡ true
      → better le b c ≡ true
      → better le a c ≡ true
  unfolding better
  better_trans (some (a, a')) (some (b, b')) (some (c, c')) h k =
      ground (arith, le_trans c b a, le_trans a' b' c', le_trans b a c, le_trans c' a' b')
  better_trans _ _ _ h k = cc

  dominates_trans :
      (a b c : RoutableTarget Number)
      → dominates le a b ≡ true
      → dominates le b c ≡ true
      → dominates le a c ≡ true
  unfolding dominates
  dominates_trans a b c h k = better_trans (metrics a) (metrics b) (metrics c) h k

  better_irrefl : (a : Option (Number × Number)) → better le a a ≡ false
  unfolding better
  better_irrefl none = refl
  better_irrefl (some (c, k)) = ground arith

  dominates_irrefl : (a : RoutableTarget Number) → dominates le a a ≡ false
  unfolding dominates
  dominates_irrefl a = better_irrefl (metrics a)

  -- A target is reached from another by dominance, or is the same.
  abbrev pub IsAbove : RoutableTarget Number → RoutableTarget Number → Type 0
  IsAbove a b = (a ≡ b) ⊎ (dominates le a b ≡ true)

  IsAbove-step :
      (a b c : RoutableTarget Number) → dominates le a b ≡ true → IsAbove b c → IsAbove a c
  IsAbove-step a b c h (inl e) = inr (subst (λ x. dominates le a x ≡ true) e h)
  IsAbove-step a b c h (inr k) = inr (dominates_trans a b c h k)

  abbrev IsUndominated : RoutableTarget Number → List (RoutableTarget Number) → Type 0
  IsUndominated m xs = All (λ x. dominates le x m ≡ false) xs

  -- What does not dominate a target does not dominate one above it.
  still-IsUndominated :
      (a b : RoutableTarget Number) (xs : List (RoutableTarget Number))
      → dominates le a b ≡ true
      → IsUndominated b xs
      → IsUndominated a xs
  still-IsUndominated a b xs h k =
      All-map xs
        (λ x free. elim (Bool-cases (dominates le x a)) [
          | inl over ↦ absurd (clash x free over)
          | inr under ↦ under
        ])
        k
    where
      clash : (x : RoutableTarget Number) → dominates le x b ≡ false → dominates le x a ≡ true → ⊥
      clash x free over = let both = dominates_trans x a b over h in cc

  -- Going through the rest of the targets, to each that dominates the one reached so far.
  climb :
      (rest passed : List (RoutableTarget Number)) (m t : RoutableTarget Number)
      → IsAbove m t
      → IsUndominated m passed
      → (P : RoutableTarget Number → Type 0) → P m
      → All P rest
      → (top : RoutableTarget Number) × P top
        × IsAbove top t
        × IsUndominated top passed
        × IsUndominated top rest
  climb L.[] passed m t above free P p ps = (m, p, above, free, tt)
  climb (L.◌∷◌ x rest) passed m t above free P p ps = elim (Bool-cases (dominates le x m)) [
    | inl over ↦
        let (top, q, up, old, new) =
          climb rest (L.◌∷◌ x passed) x t (IsAbove-step x m t over above)
            (dominates_irrefl x, still-IsUndominated x m passed over free) P ps.0 ps.1 in
        (top, q, up, old.1, (old.0, new))
    | inr under ↦
        let (top, q, up, old, new) = climb rest (L.◌∷◌ x passed) m t above (under, free) P p ps.1 in
        (top, q, up, old.1, (old.0, new))
  ]

  members : (xs : List (RoutableTarget Number)) → All (λ x. Memᴰ x xs) xs
  members L.[] = tt
  members (L.◌∷◌ x xs) = (Memᴰ.head refl, All-map xs (λ y k. Memᴰ.tail k) (members xs))

  -- Where the order of the metrics is transitive, every target is on the frontier, or a target of
  -- the frontier dominates it: no target is dropped without a better one that stays.
  pub pareto_frontier-covers :
      (targets : List (RoutableTarget Number)) (t : RoutableTarget Number)
      → Memᴰ t targets
      → (top : RoutableTarget Number) × Memᴰ top (pareto_frontier le targets) × IsAbove top t
  unfolding pareto_frontier
  pareto_frontier-covers targets t m =
      let (top, q, up, old, free) =
        climb targets L.[] t t (inl refl) tt (λ x. Memᴰ x targets) m (members targets) in
      let none_over = any-eq-false (λ other. dominates le other top) targets free in
      (top, filter-Memᴰ _ top targets q (rw none_over refl), up)
