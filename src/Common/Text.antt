-- ===== src/Common/Text.antt =====
-- Equality of texts, and the text operations of JavaScript that the program calls.
use Prim.Native.Nat.{ℕ, ◌+◌, ◌-◌}
use Prim.Native.Char.{code}
use Prim.Native.String.{String, [], ◌∷◌}
use mathlib.Core.Bool.{Bool, true, false, ◌&&◌, ◌||◌}
use mathlib.Core.Option.{Option, none, some}
use text.Mathlib.Text.{◌==◌}
use swain.Common.Tests.{leb, ltb, nat_eq, if◌then◌else◌}

abbrev pub str_eq : String → String → Bool
str_eq a b = a == b

-- `s.trim()`: the white space and line terminators of ECMAScript.
pub is_space : ℕ → Bool
is_space c =
    (leb 9 c && leb c 13)
    || nat_eq c 32
    || nat_eq c 160
    || nat_eq c 0x1680
    || (leb 0x2000 c && leb c 0x200a)
    || nat_eq c 0x2028
    || nat_eq c 0x2029
    || nat_eq c 0x202f
    || nat_eq c 0x205f
    || nat_eq c 0x3000
    || nat_eq c 0xfeff

trim_start : String → String
trim_start [] = []
trim_start (c ∷ s) = if is_space (code c) then trim_start s else c ∷ s

-- A character stays at the end only in front of one that stays.
trim_end : String → String
trim_end [] = []
trim_end (c ∷ s) = let rest = trim_end s in if rest == "" && is_space (code c) then "" else c ∷ rest

unfoldable pub trim : String → String
unfolding trim_start trim_end is_space
trim s = trim_end (trim_start s)

-- `s.length` in UTF-16 code units.
unfoldable pub text_length : String → ℕ
text_length [] = 0
text_length (c ∷ s) = (if leb 0x10000 (code c) then 2 else 1) + text_length s

abbrev units : ℕ → ℕ
units c = if leb 0x10000 c then 2 else 1

-- `s.slice(0, n)`, without the half of a pair that the limit cuts in two.
unfoldable pub take_units : ℕ → String → String
take_units n [] = []
take_units n (c ∷ s) =
    let rest = take_units (n - units (code c)) s in if ltb n (units (code c)) then [] else c ∷ rest

-- `s.startsWith(p)` and `s.includes(p)`, the pattern first.
unfoldable pub starts_with : String → String → Bool
starts_with [] s = true
starts_with (c ∷ p) [] = false
starts_with (c ∷ p) (d ∷ s) = nat_eq (code c) (code d) && starts_with p s

unfoldable pub includes : String → String → Bool
unfolding starts_with
includes p [] = starts_with p []
includes p (c ∷ s) = starts_with p (c ∷ s) || includes p s

-- `o === s`.
abbrev pub is_some_text : String → Option String → Bool
is_some_text s none = false
is_some_text s (some t) = str_eq t s
