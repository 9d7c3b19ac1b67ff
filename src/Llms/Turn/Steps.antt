-- ===== src/Llms/Turn/Steps.antt =====
-- The single events that an open turn takes.
use swain.Common.{String, Bool, if◌then◌else◌, true, none, [], ◌∷◌, ◌≡◌, refl}
use swain.Llms.Turn.{
  LlmEvent, text_start, text_delta, text_end, reasoning_start, reasoning_delta, reasoning_end,
  tool_input_start, tool_input_delta, provider_error, ProviderError, Turn, fine, invalid, accept,
  consume, has,
}
use swain.Llms.Turn.Order.{finish_of}
use swain.Llms.Turn.Progress.{Grows, Accepts, Accepts-one, has_self}

abbrev one :
    (e : LlmEvent) (t u : Turn)
    → t.finish ≡ none
    → finish_of e ≡ none
    → accept e t ≡ fine u
    → Accepts (e ∷ []) t
one e t u h q a = let (passed, g) = Accepts-one e t u h q a in (u, passed, g)

guarded : {b : Bool} {u : Turn} (m : String) → b ≡ true → (if b then fine u else invalid m) ≡ fine u
guarded m k = rw k refl

module _ (t : Turn) (h : t.finish ≡ none) (id : String) where
  -- A start passes, and its id is then started.
  pub text_start-passes :
      (u : Turn) × (consume (text_start id ∷ []) t ≡ fine u)
      × Grows t u
      × (has u.text_started id ≡ true)
  unfolding accept
  text_start-passes =
      let (u, passed, g) = one (text_start id) t _ h refl refl in
      (u, passed, g, has_self id t.text_started)

  pub reasoning_start-passes :
      (u : Turn) × (consume (reasoning_start id ∷ []) t ≡ fine u)
      × Grows t u
      × (has u.reasoning_started id ≡ true)
  unfolding accept
  reasoning_start-passes =
      let (u, passed, g) = one (reasoning_start id) t _ h refl refl in
      (u, passed, g, has_self id t.reasoning_started)

  pub tool_input_start-passes :
      (name : String)
      → (u : Turn) × (consume (tool_input_start id name ∷ []) t ≡ fine u)
        × Grows t u
        × (has u.tool_started id ≡ true)
  unfolding accept
  tool_input_start-passes name =
      let (u, passed, g) = one (tool_input_start id name) t _ h refl refl in
      (u, passed, g, has_self id t.tool_started)

  -- What belongs to a started id passes.
  pub Accepts-text_delta :
      (s : String) → has t.text_started id ≡ true → Accepts (text_delta id s ∷ []) t
  unfolding accept
  Accepts-text_delta s k = one (text_delta id s) t _ h refl (guarded _ k)

  pub Accepts-text_end : has t.text_started id ≡ true → Accepts (text_end id ∷ []) t
  unfolding accept
  Accepts-text_end k = one (text_end id) t _ h refl (guarded _ k)

  pub Accepts-reasoning_delta :
      (s : String) → has t.reasoning_started id ≡ true → Accepts (reasoning_delta id s ∷ []) t
  unfolding accept
  Accepts-reasoning_delta s k = one (reasoning_delta id s) t _ h refl (guarded _ k)

  pub Accepts-reasoning_end : has t.reasoning_started id ≡ true → Accepts (reasoning_end id ∷ []) t
  unfolding accept
  Accepts-reasoning_end k = one (reasoning_end id) t _ h refl (guarded _ k)

  pub Accepts-tool_input_delta :
      (s : String) → has t.tool_started id ≡ true → Accepts (tool_input_delta id s ∷ []) t
  unfolding accept
  Accepts-tool_input_delta s k = one (tool_input_delta id s) t _ h refl (guarded _ k)

pub Accepts-provider_error :
    (t : Turn) (e : ProviderError) → t.finish ≡ none → Accepts (provider_error e ∷ []) t
unfolding accept
Accepts-provider_error t e h = one (provider_error e) t _ h refl refl
