-- ===== src/Agent/Storage/Tests.antt =====
-- A result of 65536 characters, saved twice.
use swain.Common.{
  ℕ, zero, suc, ◌+◌, String, true, none, [], ◌≡◌, refl, arith, text_length, ap, ◌⊎◌, ◌∙◌,
}
use Prim.Native.String.{[] as empty, ◌∷◌ as ◌:::◌}
use text.Mathlib.TextLemmas as T
use swain.Llms.Messages.{Json, ToolResult, ToolResultValue, ◌&◌}
use swain.Agent.Storage.{Files, replaced, persist, safe_stem}
use swain.Agent.Storage.Laws.{IsOversized, persist_once}

text_length-append : (a b : String) → text_length (a & b) ≡ text_length a + text_length b
unfolding text_length
text_length-append empty b = ap text_length (T.nil-append b) ∙ omega arith
text_length-append (c ::: a) b =
    rw (T.cons-append c a b, text_length, text_length-append a b) (omega arith)

doubled : ℕ → String
doubled zero = "x"
doubled (suc n) = doubled n & doubled n

abbrev power : ℕ → ℕ
power zero = 1
power (suc n) = power n + power n

text_length-doubled : (n : ℕ) → text_length (doubled n) ≡ power n
unfolding doubled text_length
text_length-doubled zero = refl
text_length-doubled (suc n) =
    text_length-append (doubled n) (doubled n) ∙ ap (λ k. k + k) (text_length-doubled n)

stem : safe_stem "call|a/b" ≡ "call_a_b"
unfolding safe_stem
stem = refl

-- A disk that counts its writes.
abbrev files : Files ℕ
files = record {
  make_directory = λ d w. (true, w);
  write_file = λ p c w. (true, suc w);
  join = λ a b. a & "/" & b;
  clock = λ w. "now";
}

abbrev pretty : Json → String
pretty j = ""

abbrev large : ToolResult
large = record {
  tool_call_id = "t";
  name = none;
  result = ToolResultValue.text (doubled 16);
  is_error = none;
  duration_ms = none;
}

large-IsOversized : IsOversized files pretty "/d" large
large-IsOversized = rw (text_length-doubled 16) refl

persist_once_example :
    let p = persist files pretty "/d" [] large 0 in
    ((p.0.0 ≡ large) × (p.0.1 ≡ []))
    ⊎ ((path : String) × (p.0.0 ≡ replaced large (doubled 16) path)
        × (persist files pretty "/d" p.0.1 large 7
            ≡ ((replaced large (doubled 16) path, p.0.1), 7)))
persist_once_example =
    persist_once files pretty "/d" [] large large 0 7 large-IsOversized large-IsOversized refl
