-- ===== src/Router/Ids.antt =====
-- The identity of a target can be read back.
use Prim.Native.Char.{Char, code}
use Prim.Native.String.{[], ◌∷◌}
use text.Mathlib.TextLemmas as T
use mathlib.Core.List as L
use swain.Common.{String, Bool, false, ◌||◌, none, some, ◌≡◌, refl, arith, ap, ◌∙◌, str_eq, nat_eq}
use swain.Llms.Messages.{◌&◌}
use swain.Router.{target_id, before, split_colon, ref_of, parse_target_id}

-- Text that can stand between the colons.
abbrev pub has_colon : String → Bool
has_colon [] = false
has_colon (c ∷ s) = nat_eq (code c) b':' || has_colon s

abbrev pub IsSegment : String → Type 0
IsSegment s = (has_colon s ≡ false) × (str_eq s "" ≡ false)

cons-eq : (c : Char) (s : String) → (c ∷ []) & s ≡ c ∷ s
cons-eq c s = T.cons-append c [] s ∙ ap (λ r. c ∷ r) (T.nil-append s)

split_colon-segment : (s : String) → has_colon s ≡ false → split_colon s ≡ L.◌∷◌ s L.[]
unfolding split_colon before
split_colon-segment [] h = refl
split_colon-segment (c ∷ s) h =
    let plain : nat_eq (code c) b':' ≡ false = ground arith in
    let rest : has_colon s ≡ false = ground arith in
    rw (plain, split_colon-segment s rest) (ap (λ r. L.◌∷◌ r L.[]) (cons-eq c s))

split_colon-append :
    (s t : String) → has_colon s ≡ false → split_colon (s & ":" & t) ≡ L.◌∷◌ s (split_colon t)
unfolding split_colon before
split_colon-append [] t h =
    ap split_colon
      (T.nil-append (":" & t) ∙ T.cons-append ":" [] t ∙ ap (λ r. ":" ∷ r) (T.nil-append t))
split_colon-append (c ∷ s) t h =
    let plain : nat_eq (code c) b':' ≡ false = ground arith in
    let rest : has_colon s ≡ false = ground arith in
    rw (T.cons-append c s (":" & t), split_colon, plain, split_colon-append s t rest)
      (ap (λ r. L.◌∷◌ r (split_colon t)) (cons-eq c s))

-- A target whose provider, model and variant are non-empty and have no colon is read back from its
-- id as it was.
pub parse_target_id-target_id :
    (p m v : String)
    → IsSegment p
    → IsSegment m
    → IsSegment v
    → (parse_target_id (target_id (record { provider = p; model_id = m; variant = some v }))
        ≡ some (record { provider = p; model_id = m; variant = some v }))
      × (parse_target_id (target_id (record { provider = p; model_id = m; variant = none }))
          ≡ some (record { provider = p; model_id = m; variant = none }))
unfolding parse_target_id target_id ref_of
parse_target_id-target_id p m v hp hm hv = (
  rw
      (
        hv.1,
        split_colon-append p (m & ":" & v) hp.0,
        split_colon-append m v hm.0,
        split_colon-segment v hv.0,
        hp.1,
        hm.1,
        hv.1,
      )
      refl,
  rw (split_colon-append p m hp.0, split_colon-segment m hm.0, hp.1, hm.1) refl,
)
