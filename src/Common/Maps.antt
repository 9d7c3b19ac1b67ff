-- ===== src/Common/Maps.antt =====
-- A JavaScript `Map` with text keys: an association list in insertion order, in which a write to
-- a present key keeps its place.
use Prim.Native.String.{String}
use mathlib.Core.Path.{◌≡◌, refl}
use mathlib.Core.List.{List, [], ◌∷◌}
use mathlib.Core.Option.{Option, none, some}
use native.Mathlib.Omega.{arith}
use text.Mathlib.TextEquality.{eq_iff}
use swain.Common.Tests.{if◌then◌else◌}
use swain.Common.Text.{str_eq}

abbrev pub Dict {ℓ} : Type ℓ → Type ℓ
Dict V = List (String × V)

module _ {ℓ} {V : Type ℓ} where
  unfoldable pub lookup : String → Dict V → Option V
  lookup k [] = none
  lookup k ((j, v) ∷ m) = if str_eq j k then some v else lookup k m

  unfoldable pub insert : String → V → Dict V → Dict V
  insert k v [] = (k, v) ∷ []
  insert k v ((j, w) ∷ m) = if str_eq j k then (k, v) ∷ m else (j, w) ∷ insert k v m

  unfoldable pub remove : String → Dict V → Dict V
  remove k [] = []
  remove k ((j, w) ∷ m) = if str_eq j k then m else (j, w) ∷ remove k m

  unfoldable pub values : Dict V → List V
  values [] = []
  values ((j, v) ∷ m) = v ∷ values m

  -- A write shows at its own key, and nowhere else.
  pub lookup-insert :
      (key other : String) (new : V) (entries : Dict V)
      → lookup other (insert key new entries)
        ≡ (if str_eq key other then some new else lookup other entries)
  unfolding lookup insert
  lookup-insert key other new [] = refl
  lookup-insert key other new (entry ∷ rest) =
      let step = lookup-insert key other new rest in
      ground (arith, step, eq_iff key other, eq_iff entry.0 key, eq_iff entry.0 other)
