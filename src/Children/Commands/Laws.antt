-- ===== src/Children/Commands/Laws.antt =====
-- What the classifier of read-only commands lets through.
use Prim.Native.Char.{Char, code}
use Prim.Native.String.{String, [], ◌∷◌}
use swain.Common.{
  ℕ, Bool, true, false, ◌||◌, Option, none, some, ◌≡◌, refl, arith, inl, inr, Option-cases,
  Bool-cases, nat_eq, if_both,
}
use swain.Children.Commands.{
  Lexer, Mode, normal, escaped, dollar, quoted, operator, no_tokens, is_quote, is_smuggler,
  lex_plain, lex_char, go_on, lex, closed, tokenize_segments, all_read_only, is_read_only_command,
}

abbrev pub has_char : (ℕ → Bool) → String → Bool
has_char p [] = false
has_char p (c ∷ s) = p (code c) || has_char p s

abbrev pub is_escaping : ℕ → Bool
is_escaping c = is_quote c || nat_eq c b'\\'

abbrev IsBare : Mode → Type 0
IsBare (quoted q) = ⊥
IsBare escaped = ⊥
IsBare (operator c) = is_smuggler c ≡ false
IsBare _ = Unit

abbrev IsFine : ℕ → Option (Lexer × Mode) → Type 0
IsFine c none = Unit
IsFine c (some (l, m)) = IsBare m × (is_smuggler c ≡ false)

lex_plain-IsFine :
    (ch : Char) (l : Lexer) → is_escaping (code ch) ≡ false → IsFine (code ch) (lex_plain ch l)
unfolding lex_plain
lex_plain-IsFine ch l h = ground arith

lex_char-IsFine :
    (ch : Char) (l : Lexer) (m : Mode)
    → IsBare m
    → is_escaping (code ch) ≡ false
    → IsFine (code ch) (lex_char ch l m)
unfolding lex_char
lex_char-IsFine ch l (quoted q) k h = absurd k
lex_char-IsFine ch l escaped k h = absurd k
lex_char-IsFine ch l normal k h = lex_plain-IsFine ch l h
lex_char-IsFine ch l dollar k h =
    if_both (IsFine (code ch)) (nat_eq (code ch) b'(') tt (lex_plain-IsFine ch l h)
lex_char-IsFine ch l (operator c) k h = elim (Bool-cases (nat_eq (code ch) c)) [
  | inl same ↦ let is : code ch ≡ c = ground arith in rw (same, is) (tt, k)
  | inr other ↦ rw other (lex_plain-IsFine ch l h)
]

lex-bare :
    (s : String) (l l' : Lexer) (m : Mode)
    → IsBare m
    → has_char is_escaping s ≡ false
    → lex s l m ≡ some l'
    → has_char is_smuggler s ≡ false
unfolding lex go_on
lex-bare [] l l' m k h e = refl
lex-bare (c ∷ s) l l' m k h e = elim (Option-cases (lex_char c l m)) [
  | inl stop ↦ absurd (ground arith)
  | inr ((l₁, m₁), next) ↦
      let rest : lex s l₁ m₁ ≡ some l' = ground arith in
      let now : is_escaping (code c) ≡ false = ground arith in
      let later : has_char is_escaping s ≡ false = ground arith in
      let fine : IsBare m₁ × (is_smuggler (code c) ≡ false) =
        rw next at (lex_char-IsFine c l m k now) in
      let tail = lex-bare s l₁ l' m₁ fine.0 later rest in rw fine.1 tail
]

-- A command without quotes and backslashes that is classified as read-only has no redirection and
-- no back quote anywhere.
pub is_read_only_command-bare :
    (command : String)
    → has_char is_escaping command ≡ false
    → is_read_only_command command ≡ true
    → has_char is_smuggler command ≡ false
unfolding is_read_only_command tokenize_segments closed all_read_only
is_read_only_command-bare command h e = elim (Option-cases (lex command no_tokens normal)) [
  | inl stop ↦ absurd (ground arith)
  | inr (l, ran) ↦ lex-bare command no_tokens l normal tt h ran
]
