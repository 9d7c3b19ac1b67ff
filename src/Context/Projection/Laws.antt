-- ===== src/Context/Projection/Laws.antt =====
-- What `deriveContext` keeps of the history, and what a new marker at the end makes of it.
use swain.Common.{
  ℕ, zero, suc, ◌+◌, ◌<◌, true, false, Option, none, some, List, [], ◌∷◌, ◌++◌, if◌then◌else◌, ◌≡◌,
  refl, arith, ap, sym, subst, ◌∙◌, All, get_elem?, drop, length, Bool-cases, Option-cases, inl,
  inr,
}
use swain.Llms.Messages.{Message, Compaction}
use swain.Context.Projection.{
  compaction_block, is_marker, last_marker, Projection, indices, kept, kept_indices, tail_start_of,
  project, derive_context,
}

abbrev pub IsPlain : Message → Type 0
IsPlain m = is_marker m ≡ false

last_marker-snoc :
    (i : ℕ) (last : Option ℕ) (h : List Message) (m : Message)
    → last_marker i last (h ++ m ∷ [])
      ≡ (if is_marker m then some (i + length h) else last_marker i last h)
unfolding last_marker
last_marker-snoc i last [] m = ground arith
last_marker-snoc i last (x ∷ h) m =
    ground (arith, last_marker-snoc (i + 1) (if is_marker x then some i else last) h m)

-- Once a marker is seen the loop ends with one.
last_marker-some : (i j : ℕ) (h : List Message) → (k : ℕ) × (last_marker i (some j) h ≡ some k)
unfolding last_marker
last_marker-some i j [] = (j, refl)
last_marker-some i j (m ∷ h) = elim (Bool-cases (is_marker m)) [
  | inl e ↦ rw e (last_marker-some (i + 1) i h)
  | inr e ↦ rw e (last_marker-some (i + 1) j h)
]

last_marker-none→ : (i : ℕ) (h : List Message) → last_marker i none h ≡ none → All IsPlain h
unfolding last_marker
last_marker-none→ i [] e = tt
last_marker-none→ i (m ∷ h) e = elim (Bool-cases (is_marker m)) [
  | inl is ↦ let (k, f) = last_marker-some (i + 1) i h in absurd (ground arith)
  | inr plain ↦ (plain, last_marker-none→ (i + 1) h (ground arith))
]

kept_of_plain : (h : List Message) → All IsPlain h → kept h ≡ h
unfolding kept
kept_of_plain [] p = refl
kept_of_plain (m ∷ h) p = rw p.0 (ap (λ l. m ∷ l) (kept_of_plain h p.1))

drop-IsPlain : (n : ℕ) (h : List Message) → All IsPlain h → All IsPlain (drop n h)
drop-IsPlain zero h p = p
drop-IsPlain (suc n) [] p = tt
drop-IsPlain (suc n) (m ∷ h) p = drop-IsPlain n h p.1

-- The index `i + d` of the kept message `n` is where keeping resumes with that very message.
abbrev IsSource : ℕ → ℕ → List Message → ℕ → Type 0
IsSource i n l d =
    (get_elem? (kept_indices i l) n ≡ some (some (i + d)))
    × (kept (drop d l) ≡ drop n (kept l))
    × (d < length l)

IsSource-skip :
    (i n d : ℕ) (m : Message) (l : List Message)
    → is_marker m ≡ true
    → IsSource (i + 1) n l d
    → IsSource i n (m ∷ l) (suc d)
unfolding kept kept_indices
IsSource-skip i n d m l e (found, tail, fits) = (ground arith, ground arith, omega arith)

IsSource-next :
    (i n d : ℕ) (m : Message) (l : List Message)
    → is_marker m ≡ false
    → IsSource (i + 1) n l d
    → IsSource i (suc n) (m ∷ l) (suc d)
unfolding kept kept_indices
IsSource-next i n d m l e (found, tail, fits) = (ground arith, ground arith, omega arith)

IsSource-first :
    (i : ℕ) (m : Message) (l : List Message) → is_marker m ≡ false → IsSource i 0 (m ∷ l) 0
unfolding kept kept_indices
IsSource-first i m l e = (ground arith, refl, omega arith)

kept-IsSource : (i n : ℕ) (l : List Message) → n < length (kept l) → (d : ℕ) × IsSource i n l d
unfolding kept
kept-IsSource i n [] h = absurd (omega arith)
kept-IsSource i zero (m ∷ l) h = elim (Bool-cases (is_marker m)) [
  | inl e ↦
      let (d, is) = kept-IsSource (i + 1) zero l (rw e at h) in
      (suc d, IsSource-skip i zero d m l e is)
  | inr e ↦ (0, IsSource-first i m l e)
]
kept-IsSource i (suc n) (m ∷ l) h = elim (Bool-cases (is_marker m)) [
  | inl e ↦
      let (d, is) = kept-IsSource (i + 1) (suc n) l (rw e at h) in
      (suc d, IsSource-skip i (suc n) d m l e is)
  | inr e ↦
      let (d, is) = kept-IsSource (i + 1) n l (omega (arith, rw e at h)) in
      (suc d, IsSource-next i n d m l e is)
]

indices-get :
    (i n : ℕ) (h : List Message) → n < length h → get_elem? (indices i h) n ≡ some (some (i + n))
unfolding indices
indices-get i n [] l = absurd (omega arith)
indices-get i zero (m ∷ h) l = ground arith
indices-get i (suc n) (m ∷ h) l = indices-get (i + 1) n h (omega arith) ∙ ground arith

drop-nil : {A : Type 0} (n : ℕ) → drop {A = A} n [] ≡ []
drop-nil zero = refl
drop-nil (suc n) = refl

drop-drop : {A : Type 0} (a b : ℕ) (l : List A) → drop a (drop b l) ≡ drop (b + a) l
drop-drop a zero l = ap (λ n. drop n l) (omega arith)
drop-drop a (suc b) [] = drop-nil a ∙ sym (drop-nil (suc b + a))
drop-drop a (suc b) (x ∷ l) =
    let e : suc (b + a) ≡ suc b + a = omega arith in drop-drop a b l ∙ ap (λ n. drop n (x ∷ l)) e

length-drop-lt : {A : Type 0} (d b : ℕ) (l : List A) → d < length (drop b l) → b + d < length l
length-drop-lt d zero l h = omega arith
length-drop-lt d (suc b) [] h = absurd (omega arith)
length-drop-lt d (suc b) (x ∷ l) h = omega (arith, length-drop-lt d b l h)

-- A message of the context behind the first has an index in the history, from where keeping the
-- messages that are no markers gives the context from that message on.
abbrev pub IsTail : Projection → List Message → ℕ → ℕ → Type 0
IsTail p h cut j =
    (get_elem? p.source_index cut ≡ some (some j))
    × (kept (drop j h) ≡ drop cut p.messages)
    × (j < length h)

abbrev HasTail : List Message → ℕ → Projection → Type 0
HasTail h cut p = cut < length p.messages → (j : ℕ) × IsTail p h cut j

project-HasTail :
    (last cut : ℕ) (h : List Message) (m : Option Message) → HasTail h (suc cut) (project last h m)
unfolding project
project-HasTail last cut h none l = absurd (omega arith)
project-HasTail last cut h (some marker) l =
    let start = tail_start_of last (compaction_block marker) in
    let (d, is) = kept-IsSource start cut (drop start h) (omega arith) in
    (start + d, (is.0, ap kept (sym (drop-drop d start h)) ∙ is.1, length-drop-lt d start h is.2))

history-HasTail :
    (cut : ℕ) (h : List Message)
    → All IsPlain h
    → HasTail h cut (record { messages = h; source_index = indices 0 h })
history-HasTail cut h plain l = (
  cut,
  (
    indices-get 0 cut h l ∙ ap (λ n. some (some n)) (omega arith),
    kept_of_plain (drop cut h) (drop-IsPlain cut h plain),
    l,
  ),
)

derive_context-none :
    (h : List Message)
    → last_marker 0 none h ≡ none
    → derive_context h ≡ record { messages = h; source_index = indices 0 h }
unfolding derive_context
derive_context-none h e = rw (e, derive_context) refl

derive_context-some :
    (h : List Message) (last : ℕ)
    → last_marker 0 none h ≡ some last
    → derive_context h ≡ project last h (get_elem? h last)
unfolding derive_context
derive_context-some h last e = rw (e, derive_context) refl

-- For every message of the context but the first there is such an index.
pub derive_context-IsTail :
    (h : List Message) (cut : ℕ)
    → 0 < cut
    → cut < length (derive_context h).messages
    → (j : ℕ) × IsTail (derive_context h) h cut j
derive_context-IsTail h zero p l = absurd (omega arith)
derive_context-IsTail h (suc cut) p l = elim (Option-cases (last_marker 0 none h)) [
  | inl e ↦
      subst (HasTail h (suc cut)) (sym (derive_context-none h e))
        (history-HasTail (suc cut) h (last_marker-none→ 0 h e)) l
  | inr (last, e) ↦
      subst (HasTail h (suc cut)) (sym (derive_context-some h last e))
        (project-HasTail last cut h (get_elem? h last)) l
]

last_marker_of_plain : (i : ℕ) (h : List Message) → All IsPlain h → last_marker i none h ≡ none
unfolding last_marker
last_marker_of_plain i [] p = refl
last_marker_of_plain i (m ∷ h) p = rw p.0 (last_marker_of_plain (i + 1) h p.1)

-- A history without a marker is sent as it is.
pub derive_context_of_plain : (h : List Message) → All IsPlain h → (derive_context h).messages ≡ h
derive_context_of_plain h plain =
    ap (λ p. p.messages) (derive_context-none h (last_marker_of_plain 0 h plain))

get_elem?-snoc : (h : List Message) (m : Message) → get_elem? (h ++ m ∷ []) (length h) ≡ some m
get_elem?-snoc [] m = refl
get_elem?-snoc (x ∷ h) m = get_elem?-snoc h m

drop-snoc :
    (j : ℕ) (h : List Message) (m : Message)
    → j < length h
    → drop j (h ++ m ∷ []) ≡ drop j h ++ m ∷ []
drop-snoc zero h m l = refl
drop-snoc (suc j) [] m l = absurd (omega arith)
drop-snoc (suc j) (x ∷ h) m l = drop-snoc j h m (omega arith)

kept-snoc :
    (l : List Message) (m : Message)
    → kept (l ++ m ∷ []) ≡ (if is_marker m then kept l else kept l ++ m ∷ [])
unfolding kept
kept-snoc [] m = ground arith
kept-snoc (x ∷ l) m = ground (arith, kept-snoc l m)

-- With a marker at the end of the history the context is the marker and what it keeps.
pub derive_context-marker :
    (h : List Message) (m : Message) (c : Compaction) (j : ℕ)
    → compaction_block m ≡ some c
    → c.context_tail_start ≡ some j
    → j < length h
    → (derive_context (h ++ m ∷ [])).messages ≡ m ∷ kept (drop j h)
unfolding is_marker project
derive_context-marker h m c j block start l =
    let marker : is_marker m ≡ true = rw (block, is_marker) refl in
    let last : last_marker 0 none (h ++ m ∷ []) ≡ some (length h) =
      last_marker-snoc 0 none h m ∙ rw marker (ap some (omega arith)) in
    let from : tail_start_of (length h) (compaction_block m) ≡ j = rw block (rw start refl) in
    ap (λ p. p.messages) (derive_context-some (h ++ m ∷ []) (length h) last)
    ∙ ap (λ o. (project (length h) (h ++ m ∷ []) o).messages) (get_elem?-snoc h m)
    ∙ ap (λ l. m ∷ l)
        (ap (λ k. kept (drop k (h ++ m ∷ []))) from
          ∙ ap kept (drop-snoc j h m l)
          ∙ kept-snoc (drop j h) m
          ∙ rw marker refl)
