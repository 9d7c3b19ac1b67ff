-- ===== src/Common/Numbered.antt =====
-- A JavaScript `Map` with numbers for keys, in insertion order.
use Prim.Native.Nat.{ℕ}
use mathlib.Core.Path.{◌≡◌, sym}
use mathlib.Core.List.{List, [], ◌∷◌}
use mathlib.Core.Option.{Option, none, some}
use mathlib.Core.Logic.{inl, inr}
use native.Mathlib.Omega.{arith}
use swain.Common.Tests.{if◌then◌else◌, nat_eq, Bool-cases}
use swain.Common.Lists.{All}

abbrev pub Indexed {ℓ} : Type ℓ → Type ℓ
Indexed V = List (ℕ × V)

module _ {ℓ} {V : Type ℓ} where
  unfoldable pub find_at : ℕ → Indexed V → Option V
  find_at k [] = none
  find_at k ((j, v) ∷ m) = if nat_eq j k then some v else find_at k m

  unfoldable pub put_at : ℕ → V → Indexed V → Indexed V
  put_at k v [] = (k, v) ∷ []
  put_at k v ((j, w) ∷ m) = if nat_eq j k then (k, v) ∷ m else (j, w) ∷ put_at k v m

  unfoldable pub remove_at : ℕ → Indexed V → Indexed V
  remove_at k [] = []
  remove_at k ((j, w) ∷ m) = if nat_eq j k then m else (j, w) ∷ remove_at k m

  unfoldable pub entries_at : Indexed V → List V
  entries_at [] = []
  entries_at ((j, v) ∷ m) = v ∷ entries_at m

  -- What holds of all values holds after a write, after a removal, and of a found value.
  pub All-put_at {κ} :
      (P : V → Type κ) (k : ℕ) (v : V) (m : Indexed V)
      → P v
      → All (λ e. P e.1) m
      → All (λ e. P e.1) (put_at k v m)
  unfolding put_at
  All-put_at P k v [] new h = (new, tt)
  All-put_at P k v ((j, w) ∷ m) new h = elim (Bool-cases (nat_eq j k)) [
    | inl e ↦ rw e (new, h.1)
    | inr e ↦ rw e (h.0, All-put_at P k v m new h.1)
  ]

  pub All-remove_at {κ} :
      (P : V → Type κ) (k : ℕ) (m : Indexed V)
      → All (λ e. P e.1) m
      → All (λ e. P e.1) (remove_at k m)
  unfolding remove_at
  All-remove_at P k [] h = tt
  All-remove_at P k ((j, w) ∷ m) h = elim (Bool-cases (nat_eq j k)) [
    | inl e ↦ rw e h.1
    | inr e ↦ rw e (h.0, All-remove_at P k m h.1)
  ]

  pub find_at-All {κ} :
      (P : V → Type κ) (k : ℕ) (v : V) (m : Indexed V)
      → find_at k m ≡ some v
      → All (λ e. P e.1) m
      → P v
  unfolding find_at
  find_at-All P k v [] e h = absurd (cc)
  find_at-All P k v ((j, w) ∷ m) e h = elim (Bool-cases (nat_eq j k)) [
    | inl same ↦ let is : w ≡ v = ground arith in rw (sym is) h.0
    | inr other ↦ let rest : find_at k m ≡ some v = ground arith in find_at-All P k v m rest h.1
  ]
