-- ===== src/Common/Lists.antt =====
-- Lists measured and indexed by native numbers, and filters and tests by Boolean predicates.
use Prim.Native.Nat.{ℕ, zero, suc, ◌+◌}
use mathlib.Core.Path.{◌≡◌, refl}
use mathlib.Core.Bool.{Bool, true, false, ◌&&◌, ◌||◌}
use mathlib.Core.List.{List, [], ◌∷◌, ◌++◌}
use mathlib.Core.Option.{Option, none, some}
use native.Mathlib.Omega.{arith}
use swain.Common.Tests.{if◌then◌else◌}

module _ {ℓ} {A : Type ℓ} where
  abbrev pub length : List A → ℕ
  length [] = 0
  length (x ∷ xs) = suc (length xs)

  abbrev pub get_elem? : List A → ℕ → Option A
  get_elem? [] i = none
  get_elem? (x ∷ xs) zero = some x
  get_elem? (x ∷ xs) (suc i) = get_elem? xs i

  abbrev pub get_last? : List A → Option A
  get_last? [] = none
  get_last? (x ∷ []) = some x
  get_last? (x ∷ y ∷ xs) = get_last? (y ∷ xs)

  abbrev pub take : ℕ → List A → List A
  take zero xs = []
  take (suc n) [] = []
  take (suc n) (x ∷ xs) = x ∷ take n xs

  abbrev pub drop : ℕ → List A → List A
  drop zero xs = xs
  drop (suc n) [] = []
  drop (suc n) (x ∷ xs) = drop n xs

  -- `xs.filter(p)`, `xs.some(p)` and `xs.every(p)`.
  abbrev pub filter : (A → Bool) → List A → List A
  filter p [] = []
  filter p (x ∷ xs) = if p x then x ∷ filter p xs else filter p xs

  abbrev pub any : (A → Bool) → List A → Bool
  any p [] = false
  any p (x ∷ xs) = p x || any p xs

  abbrev pub all : (A → Bool) → List A → Bool
  all p [] = true
  all p (x ∷ xs) = p x && all p xs

  pub length-append : (xs ys : List A) → length (xs ++ ys) ≡ length xs + length ys
  length-append [] ys = omega arith
  length-append (x ∷ xs) ys = omega (arith, length-append xs ys)

  pub get_last?-snoc : (xs : List A) (x : A) → get_last? (xs ++ x ∷ []) ≡ some x
  get_last?-snoc [] x = refl
  get_last?-snoc (y ∷ []) x = refl
  get_last?-snoc (y ∷ z ∷ xs) x = get_last?-snoc (z ∷ xs) x

-- A predicate that holds of every element.
abbrev pub All {ℓ κ} : {A : Type ℓ} → (A → Type κ) → List A → Type κ
All P [] = Unit
All P (x ∷ xs) = P x × All P xs

pub All-append {ℓ κ} :
    {A : Type ℓ} (Holds : A → Type κ) (front back : List A)
    → All Holds front
    → All Holds back
    → All Holds (front ++ back)
All-append Holds [] back f b = b
All-append Holds (a ∷ front) back (now, later) b = (now, All-append Holds front back later b)
