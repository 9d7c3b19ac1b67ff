-- ===== src/Llms/Sse/Laws.antt =====
-- The decoder of server-sent events does not depend on how the text is cut into chunks.
use Prim.Native.Char.{Char, code}
use Prim.Native.String.{[], ◌∷◌}
use text.Mathlib.TextLemmas as T
use mathlib.Core.List as L
use swain.Common.{
  ℕ, zero, suc, ◌≤◌, ◌<◌, String, Bool, true, false, Option, none, some, List, ◌≡◌, refl, arith,
  sym, inl, inr, ◌⊎◌, Bool-cases,
}
use swain.Llms.Messages.{◌&◌}
use swain.Llms.Sse.{
  SseEvent, Fields, Decoder, is_lf, is_cr, drop_lf, split_line, size, with_event, drain, round,
  feed, consume_line, prefixed,
}

unfoldable pub ends_cr : String → Bool
ends_cr [] = false
ends_cr (c ∷ []) = is_cr (code c)
ends_cr (c ∷ d ∷ s) = ends_cr (d ∷ s)

ends_cr-tail : (c : Char) (s : String) → ends_cr (c ∷ s) ≡ false → ends_cr s ≡ false
unfolding ends_cr
ends_cr-tail c [] h = refl
ends_cr-tail c (d ∷ s) h = h

ends_cr-drop_lf : (s : String) → ends_cr s ≡ false → ends_cr (drop_lf s) ≡ false
unfolding drop_lf
ends_cr-drop_lf [] h = h
ends_cr-drop_lf (c ∷ s) h = elim (Bool-cases (is_lf (code c))) [
  | inl e ↦ rw e (ends_cr-tail c s h)
  | inr e ↦ rw e h
]

size-drop_lf : (s : String) → size (drop_lf s) ≤ size s
unfolding drop_lf size
size-drop_lf [] = omega arith
size-drop_lf (c ∷ s) = elim (Bool-cases (is_lf (code c))) [
  | inl e ↦ rw e (omega arith)
  | inr e ↦ rw e (omega arith)
]

-- How a text is split at its first line end.
data Split : String → String → String → Type 0 where
  at_lf : (c : Char) (s : String) → is_lf (code c) ≡ true → Split (c ∷ s) "" s
  at_cr :
      (c : Char) (s : String)
      → is_lf (code c) ≡ false
      → is_cr (code c) ≡ true
      → Split (c ∷ s) "" (drop_lf s)
  later :
      (c : Char) (s line rest : String)
      → is_lf (code c) ≡ false
      → is_cr (code c) ≡ false
      → Split s line rest
      → Split (c ∷ s) ((c ∷ []) & line) rest

Split-size : {a line rest : String} → Split a line rest → size rest < size a
unfolding size
Split-size (at_lf c s h) = omega arith
Split-size (at_cr c s h k) = omega (arith, size-drop_lf s)
Split-size (later c s line rest h k r) = omega (arith, Split-size r)

split_line-Split : {a line rest : String} → Split a line rest → split_line a ≡ some (line, rest)
unfolding split_line prefixed
split_line-Split (at_lf c s h) = rw h refl
split_line-Split (at_cr c s h k) = rw (h, k) refl
split_line-Split (later c s line rest h k r) = rw (h, k, split_line-Split r) refl

Split-cases :
    (a : String) → (split_line a ≡ none) ⊎ ((line : String) × (rest : String) × Split a line rest)
unfolding split_line prefixed
Split-cases [] = inl refl
Split-cases (c ∷ s) = elim (Bool-cases (is_lf (code c))) [
  | inl h ↦ inr ("", s, at_lf c s h)
  | inr h ↦ elim (Bool-cases (is_cr (code c))) [
    | inl k ↦ inr ("", drop_lf s, at_cr c s h k)
    | inr k ↦ elim (Split-cases s) [
      | inl e ↦ inl (rw (h, k, e) refl)
      | inr (line, rest, r) ↦ inr ((c ∷ []) & line, rest, later c s line rest h k r)
    ]
  ]
]

drop_lf-append : (c : Char) (s b : String) → drop_lf ((c ∷ s) & b) ≡ drop_lf (c ∷ s) & b
unfolding drop_lf
drop_lf-append c s b = elim (Bool-cases (is_lf (code c))) [
  | inl e ↦ rw (T.cons-append c s b, drop_lf, e) refl
  | inr e ↦ rw (T.cons-append c s b, drop_lf, e, T.cons-append c s b) refl
]

-- Text that follows a split changes neither the line nor its end, unless the end is a last CR.
Split-append :
    {a line rest : String} (b : String)
    → ends_cr a ≡ false
    → Split a line rest
    → Split (a & b) line (rest & b) × (ends_cr rest ≡ false)
unfolding ends_cr
Split-append b q (at_lf c s h) = rw (T.cons-append c s b) (at_lf c (s & b) h, ends_cr-tail c s q)
Split-append b q (at_cr c [] h k) = absurd (cc)
Split-append b q (at_cr c (d ∷ s) h k) =
    let split = at_cr c ((d ∷ s) & b) h k in
    (rw (T.cons-append c (d ∷ s) b, sym (drop_lf-append d s b)) split, ends_cr-drop_lf (d ∷ s) q)
Split-append b q (later c s line rest h k r) =
    let (next, clean) = Split-append b (ends_cr-tail c s q) r in
    rw (T.cons-append c s b) (later c (s & b) line (rest & b) h k next, clean)

drain-none :
    (n : ℕ) (b : String) (f : Fields)
    → split_line b ≡ none
    → drain n b f ≡ (List.[], record { buffer = b; fields = f })
unfolding drain round
drain-none zero b f e = refl
drain-none (suc n) b f e = rw e refl

-- Fuel beyond the size of the buffer changes nothing.
drain-fuel :
    (n m : ℕ) (b : String) (f : Fields) → size b ≤ n → size b ≤ m → drain n b f ≡ drain m b f
unfolding drain round
drain-fuel zero m b f p q = elim (Split-cases b) [
  | inl e ↦ sym (drain-none m b f e)
  | inr (line, rest, r) ↦ absurd (omega (arith, Split-size r))
]
drain-fuel (suc n) zero b f p q = elim (Split-cases b) [
  | inl e ↦ drain-none (suc n) b f e
  | inr (line, rest, r) ↦ absurd (omega (arith, Split-size r))
]
drain-fuel (suc n) (suc m) b f p q = elim (Split-cases b) [
  | inl e ↦ rw e refl
  | inr (line, rest, r) ↦
      let again =
        drain-fuel n m rest (consume_line line f).1 (omega (arith, Split-size r))
          (omega (arith, Split-size r)) in
      rw (split_line-Split r, again) refl
]

-- The text `b` fed to a decoder that has already yielded events.
abbrev pub then_feed : String → List SseEvent × Decoder → List SseEvent × Decoder
then_feed b (es, d) = let (fs, d') = feed b d in (L.◌++◌ es fs, d')

then_feed-with_event :
    (event : Option SseEvent) (b : String) (r : List SseEvent × Decoder)
    → then_feed b (with_event event r.0, r.1)
      ≡ (with_event event (then_feed b r).0, (then_feed b r).1)
then_feed-with_event none b r = refl
then_feed-with_event (some e) b r = refl

drain-append-none :
    (n m : ℕ) (a b : String) (f : Fields)
    → split_line a ≡ none
    → size (a & b) ≤ m
    → drain m (a & b) f ≡ then_feed b (drain n a f)
unfolding feed
drain-append-none n m a b f e q =
    rw (drain-none n a f e) (drain-fuel m (size (a & b)) (a & b) f q (omega arith))

drain-append :
    (n m : ℕ) (a b : String) (f : Fields)
    → ends_cr a ≡ false
    → size a ≤ n
    → size (a & b) ≤ m
    → drain m (a & b) f ≡ then_feed b (drain n a f)
unfolding feed drain round
drain-append zero m a b f h p q = elim (Split-cases a) [
  | inl e ↦ drain-append-none zero m a b f e q
  | inr (line, rest, r) ↦ absurd (omega (arith, Split-size r))
]
drain-append (suc n) zero a b f h p q = elim (Split-cases a) [
  | inl e ↦ drain-append-none (suc n) zero a b f e q
  | inr (line, rest, r) ↦ absurd (omega (arith, Split-size (Split-append b h r).0))
]
drain-append (suc n) (suc m) a b f h p q = elim (Split-cases a) [
  | inl e ↦ drain-append-none (suc n) (suc m) a b f e q
  | inr (line, rest, r) ↦
      let (next, clean) = Split-append b h r in
      let again =
        drain-append n m rest b (consume_line line f).1 clean (omega (arith, Split-size r))
          (omega (arith, Split-size next)) in
      rw (split_line-Split r, split_line-Split next, again)
        (sym
          (then_feed-with_event (consume_line line f).0 b (drain n rest (consume_line line f).1)))
]

-- Text fed in two chunks gives the same events and the same decoder as fed in one, unless the first
-- chunk leaves a carriage return at the end of the buffer.
pub feed-append :
    (a b : String) (d : Decoder)
    → ends_cr (d.buffer & a) ≡ false
    → feed (a & b) d ≡ then_feed b (feed a d)
unfolding feed
feed-append a b d h = rw (sym (T.append_assoc d.buffer a b)) (
    drain-append (size (d.buffer & a)) (size ((d.buffer & a) & b)) (d.buffer & a) b d.fields h
      (omega arith) (omega arith))

drain-drained :
    (n : ℕ) (b : String) (f : Fields) → size b ≤ n → split_line (drain n b f).1.buffer ≡ none
unfolding drain round split_line size
drain-drained zero [] f p = refl
drain-drained zero (c ∷ s) f p = absurd (omega arith)
drain-drained (suc n) b f p = elim (Split-cases b) [
  | inl e ↦ rw e e
  | inr (line, rest, r) ↦
      let again = drain-drained n rest (consume_line line f).1 (omega (arith, Split-size r)) in
      rw (split_line-Split r) again
]

-- The loop of `feed` runs until no line end is left in the buffer, so that nothing which is complete
-- waits for the next chunk.
pub feed-drained : (chunk : String) (d : Decoder) → split_line (feed chunk d).1.buffer ≡ none
unfolding feed
feed-drained chunk d =
    drain-drained (size (d.buffer & chunk)) (d.buffer & chunk) d.fields (omega arith)
