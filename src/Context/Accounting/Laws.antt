-- ===== src/Context/Accounting/Laws.antt =====
-- Bounds of the usable window, and what a usage snapshot measures.
use swain.Common.{
  ℕ, ◌+◌, ◌-◌, ◌*◌, ◌/◌, ◌≤◌, min, some, List, [], ◌∷◌, ◌++◌, ◌≡◌, refl, arith, ap, length, drop,
  length-append, le→leb,
}
use swain.Llms.Messages.{Message, Usage}
use swain.Session.{Session, Model}
use swain.Context.Tokens.{TokenCounter}
use swain.Context.Accounting.{
  output_reserve_cap, context_window, output_reserve, effective_context_window,
  active_context_tokens, record_context_usage, RequestShape, estimate_since,
  estimate_current_context_tokens,
}

-- The window that is left for the input is at least half of the model's, at most all of it, and
-- short of it by no more than the cap; so it is never negative.
pub effective_context_window_bounds :
    (m : Model) (w : ℕ)
    → context_window m ≡ some w
    → (e : ℕ) × (effective_context_window m ≡ some e)
      × (w ≤ 2 * e)
      × (e ≤ w)
      × (w ≤ e + output_reserve_cap)
unfolding effective_context_window output_reserve
effective_context_window_bounds m w h = (
  w - min (output_reserve m) (w / 2),
  rw (h, effective_context_window) refl,
  omega arith,
  omega arith,
  omega arith,
)

drop-length : (xs ys : List Message) → drop (length xs) (xs ++ ys) ≡ ys
drop-length [] ys = refl
drop-length (x ∷ xs) ys = drop-length xs ys

-- Whatever messages follow a recorded usage, the estimate is the reported active context with the
-- counter's estimate of just those messages.
pub estimate_current_context_tokens-append :
    (s : Session) (u : Usage) (later : List Message) (shape : RequestShape) (c : TokenCounter)
    → let s' = record_context_usage s u in
      estimate_current_context_tokens (record s' { messages = s.messages ++ later }) shape c
      ≡ active_context_tokens u + c.estimate_messages later
unfolding estimate_current_context_tokens estimate_since record_context_usage
estimate_current_context_tokens-append s u later shape c =
    let fits : length s.messages ≤ length (s.messages ++ later) =
      omega (arith, length-append s.messages later) in
    rw (le→leb _ _ fits)
      (ap (λ l. active_context_tokens u + c.estimate_messages l) (drop-length s.messages later))
