-- ===== src/Context/Cut.antt =====
-- `selectCut` of packages/core/src/context/compaction.ts: how much of the context to summarize.
-- `estimate` is the counter's `estimateMessages`.
pub mod Laws
use swain.Common.{ℕ, ◌+◌, Bool, true, false, List, [], ◌∷◌, if◌then◌else◌, leb, take, drop}
use swain.Llms.Messages.{Message}
use swain.Context.Pairing.{is_assistant}

boundaries_from : ℕ → List Message → List ℕ
boundaries_from i [] = []
boundaries_from i (m ∷ ms) =
    if is_assistant m then i ∷ boundaries_from (i + 1) ms else boundaries_from (i + 1) ms

-- From index 1 on.
unfoldable pub assistant_boundaries : List Message → List ℕ
unfolding boundaries_from
assistant_boundaries [] = []
assistant_boundaries (m ∷ ms) = boundaries_from 1 ms

unfoldable pub last_of : ℕ → List ℕ → ℕ
last_of d [] = d
last_of d (i ∷ is) = last_of i is

-- A limit on an estimate: infinity, a number, or a negative number.
pub data Budget : Type 0 where
  unbounded : Budget
  at_most : ℕ → Budget
  negative : Budget

abbrev pub within : ℕ → Budget → Bool
within n unbounded = true
within n (at_most b) = leb n b
within n negative = false

module _ (estimate : List Message → ℕ) (messages : List Message) where
  -- The first boundary whose suffix fits the tail's budget, else `d`.
  unfoldable pub first_fitting : ℕ → ℕ → List ℕ → ℕ
  first_fitting budget d [] = d
  first_fitting budget d (i ∷ is) =
      if leb (estimate (drop i messages)) budget then i else first_fitting budget d is

  -- The fallback loop: the last boundary before the tail whose prefix fits the summary's budget.
  unfoldable pub largest_prefix : Budget → ℕ → ℕ → List ℕ → ℕ
  largest_prefix budget tail_start cut [] = cut
  largest_prefix budget tail_start cut (i ∷ is) =
      let rest =
        largest_prefix budget tail_start
          (if within (estimate (take i messages)) budget then i else cut) is in
      if leb tail_start i then cut else rest

  cut_at : Budget → ℕ → List ℕ → ℕ
  unfolding largest_prefix
  cut_at budget tail_start boundaries =
      if within (estimate (take tail_start messages)) budget
      then tail_start
      else largest_prefix budget tail_start 0 boundaries

  cut_among : ℕ → Budget → List ℕ → ℕ
  unfolding first_fitting cut_at last_of
  cut_among tail_budget budget [] = 0
  cut_among tail_budget budget (i ∷ is) =
      cut_at budget (first_fitting tail_budget (last_of i is) (i ∷ is)) (i ∷ is)

  unfoldable pub select_cut : ℕ → Budget → ℕ
  unfolding cut_among assistant_boundaries
  select_cut tail_budget summary_input_budget =
      cut_among tail_budget summary_input_budget (assistant_boundaries messages)
