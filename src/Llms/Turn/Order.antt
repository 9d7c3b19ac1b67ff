-- ===== src/Llms/Turn/Order.antt =====
-- What a stream that `fromEvents` accepts looks like.
use text.Mathlib.TextLemmas as T
use swain.Common.{
  String, Option, none, some, List, [], ◌∷◌, ◌++◌, ◌≡◌, refl, arith, ap, ◌∙◌, sym, All,
  Option-cases, inl, inr, ◌⊎◌, ap₂,
}
use swain.Llms.Messages.{◌&◌}
use swain.Llms.Turn.{
  LlmEvent, text_start, text_delta, finished, Finish, Turn, Summary, Checked, fine, invalid,
  empty_turn, accept, round, consume, summarize, conclude, from_events,
}

-- Whether an event is a finish, and the text that it adds.
abbrev pub finish_of : LlmEvent → Option Finish
finish_of (finished f) = some f
finish_of _ = none

abbrev text_of : LlmEvent → String
text_of (text_delta id s) = s
text_of _ = ""

-- The text deltas, joined in their order.
pub texts : List LlmEvent → String
texts [] = ""
texts (e ∷ es) = text_of e & texts es

pub accept-finish :
    (e : LlmEvent) (t t' : Turn) → t.finish ≡ none → accept e t ≡ fine t' → t'.finish ≡ finish_of e
unfolding accept
accept-finish (text_start id) t t' h e = ground arith
accept-finish _ t t' h e = ground arith

consume-closed :
    (es : List LlmEvent) (t t' : Turn) (f : Finish)
    → t.finish ≡ some f
    → consume es t ≡ fine t'
    → (es ≡ []) × (t' ≡ t)
unfolding consume round
consume-closed [] t t' f h e = ground arith
consume-closed (x ∷ es) t t' f h e = ground arith

finish_of→ : (e : LlmEvent) (f : Finish) → finish_of e ≡ some f → e ≡ finished f
finish_of→ (finished g) f h = ground arith
finish_of→ _ f h = cc

pub Checked-cases {ℓ} :
    {A : Type ℓ} (r : Checked A) → ((m : String) × (r ≡ invalid m)) ⊎ ((a : A) × (r ≡ fine a))
Checked-cases (fine a) = inr (a, refl)
Checked-cases (invalid m) = inl (m, refl)

-- The one round of an open turn.
pub consume-cons :
    (e : LlmEvent) (es : List LlmEvent) (t t' : Turn)
    → t.finish ≡ none
    → consume (e ∷ es) t ≡ fine t'
    → (u : Turn) × (accept e t ≡ fine u) × (consume es u ≡ fine t')
unfolding consume round
consume-cons e es t t' h k = elim (Checked-cases (accept e t)) [
  | inl (m, bad) ↦ absurd (ground arith)
  | inr (u, good) ↦ (u, good, ground arith)
]

abbrev pub EndsWith : Finish → List LlmEvent → Type 0
EndsWith f es =
    (init : List LlmEvent) × (es ≡ init ++ finished f ∷ []) × All (λ e. finish_of e ≡ none) init

consume-EndsWith :
    (es : List LlmEvent) (t t' : Turn) (f : Finish)
    → t.finish ≡ none
    → consume es t ≡ fine t'
    → t'.finish ≡ some f
    → EndsWith f es
unfolding consume
consume-EndsWith [] t t' f h k e = absurd (ground arith)
consume-EndsWith (x ∷ es) t t' f h k e =
    let (u, good, rest) = consume-cons x es t t' h k in
    let now = accept-finish x t u h good in
    elim (Option-cases (finish_of x)) [
      | inl none_yet ↦
          let (init, split, quiet) = consume-EndsWith es u t' f (now ∙ none_yet) rest e in
          (x ∷ init, ap (λ l. x ∷ l) split, (none_yet, quiet))
      | inr (g, is) ↦
          let (over, same) = consume-closed es u t' g (now ∙ is) rest in
          let last : f ≡ g = ground arith in
          ([], ap₂ ◌∷◌ (finish_of→ x g is ∙ ap finished (sym last)) over, tt)
    ]

accept-text : (e : LlmEvent) (t t' : Turn) → accept e t ≡ fine t' → t'.text ≡ t.text & text_of e
unfolding accept
accept-text (text_delta id s) t t' h = ground arith
accept-text _ t t' h = ground (arith, T.append-nil t.text)

consume-text :
    (es : List LlmEvent) (t t' : Turn) → consume es t ≡ fine t' → t'.text ≡ t.text & texts es
unfolding consume round texts
consume-text [] t t' h = ground (arith, T.append-nil t.text)
consume-text (e ∷ es) t t' h = elim (Checked-cases (accept e t)) [
  | inl (m, bad) ↦ absurd (ground arith)
  | inr (u, good) ↦
      let rest : consume es u ≡ fine t' = ground arith in
      consume-text es u t' rest
      ∙ ap (λ a. a & texts es) (accept-text e t u good)
      ∙ T.append_assoc t.text (text_of e) (texts es)
]

pub conclude-fine :
    (r : Checked Turn) (s : Summary)
    → conclude r ≡ fine s
    → (t : Turn) × (f : Finish) × (r ≡ fine t) × (t.finish ≡ some f) × (s ≡ summarize t f)
unfolding conclude
conclude-fine (invalid m) s h = absurd (cc)
conclude-fine (fine t) s h = elim (Option-cases t.finish) [
  | inl e ↦ absurd (ground arith)
  | inr (f, e) ↦ (t, f, refl, e, ground arith)
]

-- A stream is accepted only if it ends with a finish event and holds no other, and then the
-- summary has that finish, its usage, and for its text the text deltas joined in order.
pub from_events_sound :
    (es : List LlmEvent) (s : Summary)
    → from_events es ≡ fine s
    → EndsWith s.finish es × (s.usage ≡ s.finish.usage) × (s.text ≡ texts es)
unfolding from_events summarize
from_events_sound es s h =
    let (t, f, ran, ends, is) = conclude-fine (consume es empty_turn) s h in
    rw is (
      consume-EndsWith es empty_turn t f refl ran ends,
      refl,
      consume-text es empty_turn t ran ∙ T.nil-append (texts es),
    )
