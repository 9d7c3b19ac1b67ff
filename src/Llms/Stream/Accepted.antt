-- ===== src/Llms/Stream/Accepted.antt =====
-- A decoder whose steps keep to the order of the events gives streams that `fromEvents` accepts.
use swain.Common.{none, List, [], ◌∷◌, ◌++◌, ◌≡◌, arith, ap, ◌∙◌, sym, inl, inr, append_assoc}
use swain.Llms.Turn.{
  LlmEvent, finished, Finish, Turn, Summary, fine, empty_turn, consume, from_events,
}
use swain.Llms.Turn.Progress.{
  Grows, Grows-trans, consume-append, Accepts, Accepts-append, from_events-finished,
}
use swain.Llms.Client.{Fallible, yields, fails}
use swain.Llms.ToolInput.Accepted.{Fallible-cases}
use swain.Llms.Stream.{decode_with, and_then, chunk_then, last_events}

-- The events end with a finish, and those before it pass.
abbrev pub Concludes : Turn → Fallible (List LlmEvent) → Type 0
Concludes t (fails x) = Unit
Concludes t (yields es) =
    (init : List LlmEvent) × (f : Finish) × (es ≡ init ++ finished f ∷ []) × Accepts init t

Concludes-append :
    (es fs : List LlmEvent) (t u : Turn)
    → consume es t ≡ fine u
    → Grows t u
    → Concludes u (yields fs)
    → Concludes t (yields (es ++ fs))
Concludes-append es fs t u passed g (init, f, is, ok) = (
  es ++ init,
  f,
  ap (λ l. es ++ l) is ∙ sym (append_assoc es init (finished f ∷ [])),
  Accepts-append es init t u passed g ok,
)

-- `Tracks` says how the decoder's state agrees with that of the checks.
module _ {State : Type 0} (Tracks : State → Turn → Type 0) where
  abbrev pub Follows : Turn → List LlmEvent × State → Type 0
  Follows t (es, s) = (u : Turn) × (consume es t ≡ fine u) × Grows t u × Tracks s u

  abbrev pub FollowsIfAny : Turn → Fallible (List LlmEvent × State) → Type 0
  FollowsIfAny t (fails x) = Unit
  FollowsIfAny t (yields r) = Follows t r

-- A step that establishes what the next one needs.
pub Follows-and_then :
    {State : Type 0} (P Q : State → Turn → Type 0) (r : List LlmEvent × State)
    (f : State → List LlmEvent × State) (t : Turn)
    → Follows P t r
    → ((s : State) (u : Turn) → P s u → Follows Q u (f s))
    → Follows Q t (and_then r f)
Follows-and_then P Q (es, s) f t (u, passed, g, k) next =
    let (v, later, g', k') = next s u k in
    (v, consume-append es (f s).0 t u passed ∙ later, Grows-trans g g', k')

module _ {State : Type 0} (Tracks : State → Turn → Type 0) where
  module _ {Chunk : Type 0} (handle : Chunk → State → Fallible (List LlmEvent × State))
      (flush : State → Fallible (List LlmEvent))
      (follows : (c : Chunk) (s : State) (t : Turn)
        → Tracks s t
        → FollowsIfAny Tracks t (handle c s))
      (concludes : (s : State) (t : Turn) → Tracks s t → Concludes t (flush s)) where
    decode_with-Concludes :
        (cs : List Chunk) (s : State) (t : Turn)
        → Tracks s t
        → (decode_with handle flush cs s).failure ≡ none
        → Concludes t (yields (decode_with handle flush cs s).events)
    unfolding decode_with chunk_then last_events
    decode_with-Concludes [] s t k h = elim (Fallible-cases (flush s)) [
      | inl (x, bad) ↦ absurd (ground arith)
      | inr (es, good) ↦
          let ok : Concludes t (yields es) = rw good at (concludes s t k) in rw good ok
    ]
    decode_with-Concludes (c ∷ cs) s t k h = elim (Fallible-cases (handle c s)) [
      | inl (x, bad) ↦ absurd (ground arith)
      | inr ((es, s'), good) ↦
          let ok : Follows Tracks t (es, s') = rw good at (follows c s t k) in
          let on : (decode_with handle flush cs s').failure ≡ none = ground arith in
          let rest = decode_with-Concludes cs s' ok.0 ok.3 on in
          rw good
            (Concludes-append es (decode_with handle flush cs s').events t ok.0 ok.1 ok.2 rest)
    ]

    pub decode_with-accepted :
        (cs : List Chunk) (s : State)
        → Tracks s empty_turn
        → (decode_with handle flush cs s).failure ≡ none
        → (out : Summary) × (from_events (decode_with handle flush cs s).events ≡ fine out)
    decode_with-accepted cs s k h =
        let (init, f, is, ok) = decode_with-Concludes cs s empty_turn k h in
        let (out, accepted, _) = from_events-finished init f ok in
        (out, ap from_events is ∙ accepted)
