-- ===== src/Session/Transition.antt =====
-- What `recordModelTransition` keeps of the targets that a session has used.
use swain.Common.{
  Bool, true, false, none, some, List, [], ◌∷◌, ◌++◌, ◌≡◌, refl, arith, ◌||◌, any, Bool-cases, inl,
  inr, if◌then◌else◌, eq_iff, sym, ap, subst, ◌∙◌, eq_refl,
}
use swain.Llms.Messages.{ModelRef}
use swain.Session.{
  Session, ModelTransition, model_ref_key, same_target, with_past, moved, record_model_transition,
}

abbrev pub has_target : List ModelRef → ModelRef → Bool
has_target refs r = any (λ ref. same_target ref r) refs

-- The target is the current one or one of the past.
abbrev pub remembers : Session → ModelRef → Bool
remembers s r =
    same_target s.system_context.model_ref r || has_target s.system_context.past_models r

-- No two past models have the same target.
abbrev pub AreDistinct : List ModelRef → Type 0
AreDistinct [] = Unit
AreDistinct (r ∷ rs) = (has_target rs r ≡ false) × AreDistinct rs

has_target-snoc :
    (rs : List ModelRef) (r k : ModelRef)
    → has_target (rs ++ r ∷ []) k ≡ (has_target rs k || same_target r k)
has_target-snoc [] r k = ground arith
has_target-snoc (x ∷ rs) r k = ground (arith, has_target-snoc rs r k)

same_target_sym : (a b : ModelRef) → same_target a b ≡ same_target b a
unfolding same_target
same_target_sym a b =
    ground (
      arith,
      eq_iff (model_ref_key a) (model_ref_key b),
      eq_iff (model_ref_key b) (model_ref_key a),
    )

same_target_refl : (a : ModelRef) → same_target a a ≡ true
unfolding same_target
same_target_refl a = eq_refl (model_ref_key a)

same_target_trans :
    (a b c : ModelRef) → same_target a b ≡ true → same_target b c ≡ true → same_target a c ≡ true
unfolding same_target
same_target_trans a b c = ground (
  arith,
  eq_iff (model_ref_key a) (model_ref_key b),
  eq_iff (model_ref_key b) (model_ref_key c),
  eq_iff (model_ref_key a) (model_ref_key c),
)

-- A past that has the target of `a` has that of any `b` with the same.
has_target-same :
    (rs : List ModelRef) (a b : ModelRef)
    → same_target a b ≡ true
    → has_target rs a ≡ true
    → has_target rs b ≡ true
has_target-same [] a b e h = h
has_target-same (r ∷ rs) a b e h = ground (arith, has_target-same rs a b, same_target_trans r a b)

with_past-AreDistinct :
    (rs : List ModelRef) (r : ModelRef) → AreDistinct rs → AreDistinct (with_past rs r)
unfolding with_past
with_past-AreDistinct rs r h = elim (Bool-cases (has_target rs r)) [
  | inl old ↦ rw old h
  | inr new ↦ rw new (snoc rs h new)
]
  where
    snoc :
        (xs : List ModelRef) → AreDistinct xs → has_target xs r ≡ false → AreDistinct (xs ++ r ∷ [])
    snoc [] d e = (refl, tt)
    snoc (x ∷ xs) d e =
        (ground (arith, has_target-snoc xs r x, same_target_sym x r), snoc xs d.1 (ground arith))

has_target-with_past :
    (rs : List ModelRef) (r k : ModelRef)
    → (same_target r k || has_target rs k) ≡ true
    → has_target (with_past rs r) k ≡ true
unfolding with_past
has_target-with_past rs r k h = ground (arith, has_target-snoc rs r k, has_target-same rs r k)

-- The transitions of a session, in order.
pub run : List ModelTransition → Session → Session
run [] s = s
run (t ∷ ts) s = run ts (record_model_transition s t).1

transition-remembers :
    (s : Session) (t : ModelTransition) (r : ModelRef)
    → remembers s r ≡ true
    → remembers (record_model_transition s t).1 r ≡ true
unfolding record_model_transition
transition-remembers s t r h =
    ground (arith, has_target-with_past s.system_context.past_models s.system_context.model_ref r)

transition-AreDistinct :
    (s : Session) (t : ModelTransition)
    → AreDistinct s.system_context.past_models
    → AreDistinct (record_model_transition s t).1.system_context.past_models
unfolding record_model_transition
transition-AreDistinct s t h =
    ground (arith, with_past-AreDistinct s.system_context.past_models s.system_context.model_ref)

-- Whatever transitions follow, a target that the session remembers, as the current one or among the
-- past models, stays remembered, and past models that have no target twice still have none twice.
pub run-remembers :
    (ts : List ModelTransition) (s : Session) (r : ModelRef)
    → AreDistinct s.system_context.past_models
    → remembers s r ≡ true
    → (remembers (run ts s) r ≡ true) × AreDistinct (run ts s).system_context.past_models
unfolding run
run-remembers [] s r d h = (h, d)
run-remembers (t ∷ ts) s r d h =
    run-remembers ts (record_model_transition s t).1 r (transition-AreDistinct s t d)
      (transition-remembers s t r h)

-- A transition to another target returns the previous one; then the new one is current and the
-- previous one is among the past. One to the same target returns none, and changes neither the
-- current reference nor the past. Both take the new model and options.
pub record_model_transition_lem :
    (s : Session) (t : ModelTransition)
    → let (previous, s') = record_model_transition s t in
      let before = s.system_context in
      let after = s'.system_context in
      (after.model ≡ t.model)
      × (after.request_options ≡ t.request_options)
      × (if same_target before.model_ref t.model_ref
          then (previous ≡ none)
            × (after.model_ref ≡ before.model_ref)
            × (after.past_models ≡ before.past_models)
          else (previous ≡ some before.model_ref)
            × (after.model_ref ≡ t.model_ref)
            × (has_target after.past_models before.model_ref ≡ true))
unfolding record_model_transition
record_model_transition_lem s t =
    let ctx = s.system_context in
    elim (Bool-cases (same_target ctx.model_ref t.model_ref)) [
      | inl e ↦ rw e (refl, refl, (refl, refl, refl))
      | inr e ↦ rw e (
        refl,
        refl,
        (
          refl,
          refl,
          has_target-with_past ctx.past_models ctx.model_ref ctx.model_ref
              (rw (same_target_refl ctx.model_ref) refl),
        ),
      )
    ]

transition-moved :
    (s : Session) (t : ModelTransition)
    → same_target s.system_context.model_ref t.model_ref ≡ false
    → (record_model_transition s t).1 ≡ moved s t
unfolding record_model_transition
transition-moved s t other = rw other refl

-- A session that changes its target and changes back has its current target among the past models.
pub current_in_past :
    (s : Session) (away back : ModelTransition)
    → same_target s.system_context.model_ref away.model_ref ≡ false
    → back.model_ref ≡ s.system_context.model_ref
    → let after = (run (away ∷ back ∷ []) s).system_context in
      has_target after.past_models after.model_ref ≡ true
unfolding run
current_in_past s away back other same =
    let ctx = s.system_context in
    let here = ctx.model_ref in
    let there = away.model_ref in
    let differ : same_target there here ≡ false = same_target_sym there here ∙ other in
    let past = has_target-with_past ctx.past_models here here (rw (same_target_refl here) refl) in
    let later =
      has_target-with_past (with_past ctx.past_models here) there here (rw (differ, past) refl) in
    let step = transition-moved s away other in
    let back_step = transition-moved (moved s away) back (rw same differ) in
    let both : run (away ∷ back ∷ []) s ≡ moved (moved s away) back =
      ap (λ u. (record_model_transition u back).1) step ∙ back_step in
    subst (λ x. has_target x.system_context.past_models x.system_context.model_ref ≡ true)
      (sym both) (rw same later)
