-- ===== src/Children/Commands.antt =====
-- packages/core/src/tools/bash.ts: the classifier of read-only commands.
--
-- The tokenizer's looks at the next character are modes: what follows a backslash, an operator or a
-- dollar sign is read in the mode that it leaves. The commands that are refused or need approval by
-- a regular expression, and running a command, are not modelled.
pub mod Laws
mod Tests
use Prim.Native.Char.{Char, code}
use Prim.Native.String.{String, [], ◌∷◌}
use mathlib.Core.List as L
use swain.Common.{
  ℕ, Bool, true, false, not, ◌&&◌, ◌||◌, Option, none, some, List, if◌then◌else◌, str_eq, nat_eq,
  leb, any, all, starts_with,
}
use swain.Llms.Messages.{◌&◌}

abbrev pub names : List String → String → Bool
names xs x = any (λ y. str_eq y x) xs

infixr 60 ◌then◌
abbrev ◌then◌ : String → List String → List String
x then xs = L.◌∷◌ x xs

abbrev pub read_only_commands : List String
read_only_commands =
    "ls" then "pwd" then "find" then "grep" then "rg" then "cat" then "head" then "tail" then "wc"
    then "echo" then "printf" then "stat" then "file" then "which" then "tree" then "sort"
    then "uniq" then "cut" then "basename" then "dirname" then "realpath" then "date" then "du"
    then L.[]

abbrev pub read_only_git : List String
read_only_git =
    "status" then "log" then "diff" then "show" then "rev-parse" then "rev-list" then "ls-files"
    then "blame" then "shortlog" then "describe" then "grep" then L.[]

abbrev pub find_write_actions : List String
find_write_actions =
    "-delete" then "-exec" then "-execdir" then "-ok" then "-okdir" then "-fprint" then "-fprint0"
    then "-fprintf" then "-fls" then L.[]

-- /^-[a-zA-Z]*o/ : a dash, then letters of which one is `o`.
is_letter : ℕ → Bool
is_letter c = (leb b'a' c && leb c b'z') || (leb b'A' c && leb c b'Z')

letters_with_o : String → Bool
letters_with_o [] = false
letters_with_o (c ∷ s) = nat_eq (code c) b'o' || (is_letter (code c) && letters_with_o s)

short_o : String → Bool
short_o [] = false
short_o (c ∷ s) = nat_eq (code c) b'-' && letters_with_o s

unfoldable pub has_write_flag : String → List String → Bool
unfolding short_o letters_with_o is_letter starts_with
has_write_flag head args =
    if str_eq head "sort"
    then any (λ a. starts_with "--output" a || short_o a) args
    else if str_eq head "find"
    then any (λ a. names find_write_actions a) args
    else false

pub record Lexer : Type 0 where
  pub segments : List (List String)
  pub argv : List String
  pub token : String
  pub has_token : Bool

pub data Mode : Type 0 where
  normal escaped dollar : Mode
  quoted operator : (c : ℕ) → Mode

abbrev pub no_tokens : Lexer
no_tokens = record { segments = L.[]; argv = L.[]; token = ""; has_token = false }

unfoldable pub end_token : Lexer → Lexer
end_token l =
    if l.has_token
    then record l { argv = L.◌++◌ l.argv (L.◌∷◌ l.token L.[]); token = ""; has_token = false }
    else l

push_segment : Lexer → Lexer
push_segment l = elim l.argv [
  | L.[] ↦ l
  | L.◌∷◌ a rest ↦ record l {
    segments = L.◌++◌ l.segments (L.◌∷◌ (L.◌∷◌ a rest) L.[]);
    argv = L.[];
  }
]

unfoldable pub end_segment : Lexer → Lexer
unfolding push_segment end_token
end_segment l = push_segment (end_token l)

unfoldable pub add_char : Char → Lexer → Lexer
add_char c l = record l { token = l.token & (c ∷ []); has_token = true }

abbrev pub is_quote : ℕ → Bool
is_quote c = nat_eq c b'\'' || nat_eq c b'"'

-- `>`, `<` and the back quote.
abbrev pub is_smuggler : ℕ → Bool
is_smuggler c = nat_eq c b'>' || nat_eq c b'<' || nat_eq c b'`'

-- The `switch` on a character outside quotes. None is `return null`.
lex_plain : Char → Lexer → Option (Lexer × Mode)
unfolding add_char end_token end_segment
lex_plain ch l =
    let c = code ch in
    if is_quote c
    then some (record l { has_token = true }, quoted c)
    else if nat_eq c b'\\'
    then some (l, escaped)
    else if nat_eq c b' ' || nat_eq c b'\t'
    then some (end_token l, normal)
    else if nat_eq c b'\n' || nat_eq c b';'
    then some (end_segment l, normal)
    else if nat_eq c b'|' || nat_eq c b'&'
    then some (end_segment l, operator c)
    else if is_smuggler c
    then none
    else if nat_eq c b'$'
    then some (add_char ch l, dollar)
    else some (add_char ch l, normal)

lex_char : Char → Lexer → Mode → Option (Lexer × Mode)
unfolding lex_plain add_char
lex_char ch l (quoted q) =
    some (if nat_eq (code ch) q then (l, normal) else (add_char ch l, quoted q))
lex_char ch l escaped = some (add_char ch l, normal)
lex_char ch l (operator c) = if nat_eq (code ch) c then some (l, normal) else lex_plain ch l
lex_char ch l dollar = if nat_eq (code ch) b'(' then none else lex_plain ch l
lex_char ch l normal = lex_plain ch l

go_on : (Lexer → Mode → Option Lexer) → Option (Lexer × Mode) → Option Lexer
go_on rest none = none
go_on rest (some (l, m)) = rest l m

-- The loop over the characters.
pub lex : String → Lexer → Mode → Option Lexer
unfolding lex_char go_on
lex [] l m = some l
lex (c ∷ s) l m = go_on (λ l' m'. lex s l' m') (lex_char c l m)

closed : Option Lexer → Option (List (List String))
closed none = none
closed (some l) = some (end_segment l).segments

unfoldable pub tokenize_segments : String → Option (List (List String))
unfolding lex closed end_segment
tokenize_segments command = closed (lex command no_tokens normal)

-- The first argument that is no option.
git_command : List String → Option String
git_command L.[] = none
git_command (L.◌∷◌ a rest) = if starts_with "-" a then git_command rest else some a

reads_git : Option String → Bool
reads_git none = false
reads_git (some sub) = names read_only_git sub

unfoldable pub is_read_only_segment : List String → Bool
unfolding git_command reads_git has_write_flag starts_with
is_read_only_segment L.[] = false
is_read_only_segment (L.◌∷◌ head args) =
    if str_eq head "git"
    then reads_git (git_command args)
    else if names read_only_commands head
    then not (has_write_flag head args)
    else false

all_read_only : Option (List (List String)) → Bool
all_read_only none = false
all_read_only (some L.[]) = false
all_read_only (some (L.◌∷◌ seg segs)) = all is_read_only_segment (L.◌∷◌ seg segs)

unfoldable pub is_read_only_command : String → Bool
unfolding all_read_only tokenize_segments is_read_only_segment
is_read_only_command command = all_read_only (tokenize_segments command)
