-- ===== src/Common/Members.antt =====
-- Membership in lists and among the values of a map.
use Prim.Native.String.{String}
use mathlib.Core.Path.{◌≡◌, refl, ap, ◌∙◌, sym}
use mathlib.Core.Logic.{inl, inr}
use mathlib.Core.Bool.{Bool, true, false}
use mathlib.Core.Option.{some}
use mathlib.Core.List.{List, [], ◌∷◌, Memᴰ}
use native.Mathlib.Omega.{arith}
use swain.Common.Tests.{Bool-cases}
use swain.Common.Text.{str_eq}
use swain.Common.Lists.{filter, any, All}
use swain.Common.Maps.{Dict, lookup, insert, remove, values}

-- A found value stands among the values.
pub lookup-Memᴰ {ℓ} :
    {V : Type ℓ} (k : String) (v : V) (m : Dict V) → lookup k m ≡ some v → Memᴰ v (values m)
unfolding lookup values
lookup-Memᴰ k v [] e = absurd (cc)
lookup-Memᴰ k v ((j, w) ∷ m) e = elim (Bool-cases (str_eq j k)) [
  | inl same ↦ Memᴰ.head (ground arith)
  | inr other ↦ Memᴰ.tail (lookup-Memᴰ k v m (rw other at e))
]

-- A filter keeps what passes it, and holds nothing else.
pub filter-Memᴰ {ℓ} :
    {A : Type ℓ} (p : A → Bool) (a : A) (xs : List A)
    → Memᴰ a xs
    → p a ≡ true
    → Memᴰ a (filter p xs)
filter-Memᴰ p a [] m h = elim m [ ]
filter-Memᴰ p a (x ∷ xs) (Memᴰ.head e) h = rw (sym (ap p e) ∙ h) (Memᴰ.head e)
filter-Memᴰ p a (x ∷ xs) (Memᴰ.tail m) h = elim (Bool-cases (p x)) [
  | inl e ↦ rw e (Memᴰ.tail (filter-Memᴰ p a xs m h))
  | inr e ↦ rw e (filter-Memᴰ p a xs m h)
]

-- What holds of all elements holds of those that a filter keeps, and they pass the test.
pub filter-All {ℓ κ} :
    {A : Type ℓ} (P : A → Type κ) (p : A → Bool) (xs : List A)
    → All P xs
    → All (λ x. P x × (p x ≡ true)) (filter p xs)
filter-All P p [] h = tt
filter-All P p (x ∷ xs) h = elim (Bool-cases (p x)) [
  | inl e ↦ rw e ((h.0, e), filter-All P p xs h.1)
  | inr e ↦ rw e (filter-All P p xs h.1)
]

pub All-map {ℓ κ μ} :
    {A : Type ℓ} {P : A → Type κ} {Q : A → Type μ} (xs : List A)
    → ((x : A) → P x → Q x)
    → All P xs
    → All Q xs
All-map [] f h = tt
All-map (x ∷ xs) f h = (f x h.0, All-map xs f h.1)

pub any_of_Memᴰ {ℓ} :
    {A : Type ℓ} (p : A → Bool) (a : A) (xs : List A) → Memᴰ a xs → p a ≡ true → any p xs ≡ true
any_of_Memᴰ p a [] m h = elim m [ ]
any_of_Memᴰ p a (x ∷ xs) (Memᴰ.head e) h = rw (sym (ap p e) ∙ h) refl
any_of_Memᴰ p a (x ∷ xs) (Memᴰ.tail m) h = ground (arith, any_of_Memᴰ p a xs m h)

pub any-eq-false {ℓ} :
    {A : Type ℓ} (p : A → Bool) (xs : List A) → All (λ x. p x ≡ false) xs → any p xs ≡ false
any-eq-false p [] h = refl
any-eq-false p (x ∷ xs) h = rw h.0 (any-eq-false p xs h.1)

pub filter-eq-nil {ℓ} :
    {A : Type ℓ} (p : A → Bool) (xs : List A) → All (λ x. p x ≡ false) xs → filter p xs ≡ []
filter-eq-nil p [] h = refl
filter-eq-nil p (x ∷ xs) h = rw h.0 (filter-eq-nil p xs h.1)

pub All-Memᴰ {ℓ κ} :
    {A : Type ℓ} (P : A → Type κ) (a : A) (xs : List A) → All P xs → Memᴰ a xs → P a
All-Memᴰ P a [] h m = elim m [ ]
All-Memᴰ P a (x ∷ xs) h (Memᴰ.head e) = rw e h.0
All-Memᴰ P a (x ∷ xs) h (Memᴰ.tail m) = All-Memᴰ P a xs h.1 m

-- What holds of all values of a map holds after a write, after a removal, and of a found value.
pub All-insert {ℓ κ} :
    {V : Type ℓ} (P : V → Type κ) (k : String) (v : V) (m : Dict V)
    → P v
    → All (λ e. P e.1) m
    → All (λ e. P e.1) (insert k v m)
unfolding insert
All-insert P k v [] new h = (new, tt)
All-insert P k v ((j, w) ∷ m) new h = elim (Bool-cases (str_eq j k)) [
  | inl e ↦ rw e (new, h.1)
  | inr e ↦ rw e (h.0, All-insert P k v m new h.1)
]

pub All-remove {ℓ κ} :
    {V : Type ℓ} (P : V → Type κ) (k : String) (m : Dict V)
    → All (λ e. P e.1) m
    → All (λ e. P e.1) (remove k m)
unfolding remove
All-remove P k [] h = tt
All-remove P k ((j, w) ∷ m) h = elim (Bool-cases (str_eq j k)) [
  | inl e ↦ rw e h.1
  | inr e ↦ rw e (h.0, All-remove P k m h.1)
]

pub lookup-All {ℓ κ} :
    {V : Type ℓ} (P : V → Type κ) (k : String) (v : V) (m : Dict V)
    → lookup k m ≡ some v
    → All (λ e. P e.1) m
    → P v
unfolding lookup
lookup-All P k v [] e h = absurd (cc)
lookup-All P k v ((j, w) ∷ m) e h = elim (Bool-cases (str_eq j k)) [
  | inl same ↦ let is : w ≡ v = ground arith in rw (sym is) h.0
  | inr other ↦ let rest : lookup k m ≡ some v = ground arith in lookup-All P k v m rest h.1
]
