-- ===== src/Context/Cut/Laws.antt =====
-- Where `selectCut` cuts, and that the summarized prefix fits its budget.
use swain.Common.{
  ℕ, suc, ◌+◌, ◌<◌, ◌≤◌, true, false, some, List, [], ◌∷◌, ◌≡◌, refl, arith, subst, get_elem?, take,
  drop, leb, All, All-map, Bool-cases, inl, inr, ◌⊎◌,
}
use swain.Llms.Messages.{Message}
use swain.Context.Pairing.{is_assistant}
use swain.Context.Cut.{
  Budget, within, boundaries_from, assistant_boundaries, last_of, first_fitting, largest_prefix,
  cut_at, cut_among, select_cut,
}

-- An assistant's message stands at `i`, behind the first message.
abbrev pub IsBoundary : List Message → ℕ → Type 0
IsBoundary ms i = (0 < i) × (m : Message) × (get_elem? ms i ≡ some m) × (is_assistant m ≡ true)

-- `boundaries_from i` over a suffix lists indices of the whole.
boundaries_from-All :
    (P : ℕ → Type 0) (i : ℕ) (l : List Message)
    → ((n : ℕ) (m : Message) → get_elem? l n ≡ some m → is_assistant m ≡ true → P (i + n))
    → All P (boundaries_from i l)
unfolding boundaries_from
boundaries_from-All P i [] h = tt
boundaries_from-All P i (m ∷ l) h =
    let rest = boundaries_from-All P (i + 1) l (λ n x e a. subst P (shift i n) (h (suc n) x e a)) in
    elim (Bool-cases (is_assistant m)) [
      | inl e ↦ rw e (subst P (zero_shift i) (h 0 m refl e), rest)
      | inr e ↦ rw e rest
    ]
  where
    shift : (i n : ℕ) → i + suc n ≡ i + 1 + n
    shift i n = omega arith

    zero_shift : (i : ℕ) → i + 0 ≡ i
    zero_shift i = omega arith

assistant_boundaries-All : (ms : List Message) → All (IsBoundary ms) (assistant_boundaries ms)
unfolding assistant_boundaries
assistant_boundaries-All [] = tt
assistant_boundaries-All (m ∷ ms) = boundaries_from-All (IsBoundary (m ∷ ms)) 1 ms λ n x e a.
    let up : suc n ≡ 1 + n = omega arith in
    (omega arith, x, subst (λ k. get_elem? (m ∷ ms) k ≡ some x) up e, a)

last_of-All : (P : ℕ → Type 0) (d : ℕ) (is : List ℕ) → P d → All P is → P (last_of d is)
unfolding last_of
last_of-All P d [] p h = p
last_of-All P d (i ∷ is) p h = last_of-All P i is h.0 h.1

-- Every later boundary is larger.
abbrev IsIncreasing : List ℕ → Type 0
IsIncreasing [] = Unit
IsIncreasing (i ∷ is) = All (λ j. i < j) is × IsIncreasing is

boundaries_from-IsIncreasing : (i : ℕ) (l : List Message) → IsIncreasing (boundaries_from i l)
unfolding boundaries_from
boundaries_from-IsIncreasing i [] = tt
boundaries_from-IsIncreasing i (m ∷ l) = elim (Bool-cases (is_assistant m)) [
  | inl e ↦ rw e (
    boundaries_from-All (λ j. i < j) (i + 1) l (λ n x f a. omega arith),
    boundaries_from-IsIncreasing (i + 1) l,
  )
  | inr e ↦ rw e (boundaries_from-IsIncreasing (i + 1) l)
]

assistant_boundaries-IsIncreasing : (ms : List Message) → IsIncreasing (assistant_boundaries ms)
unfolding assistant_boundaries
assistant_boundaries-IsIncreasing [] = tt
assistant_boundaries-IsIncreasing (m ∷ ms) = boundaries_from-IsIncreasing 1 ms

module _ (estimate : List Message → ℕ) (messages : List Message) where
  first_fitting-All :
      (P : ℕ → Type 0) (budget d : ℕ) (is : List ℕ)
      → P d
      → All P is
      → P (first_fitting estimate messages budget d is)
  unfolding first_fitting
  first_fitting-All P budget d [] p h = p
  first_fitting-All P budget d (i ∷ is) p h =
      elim (Bool-cases (leb (estimate (drop i messages)) budget)) [
        | inl e ↦ rw e h.0
        | inr e ↦ rw e (first_fitting-All P budget d is p h.1)
      ]

  -- No boundary before the first fitting one fits.
  first_fitting_first :
      (budget d t : ℕ) (is : List ℕ)
      → IsIncreasing is
      → first_fitting estimate messages budget d is ≡ t
      → All (λ j. (leb (estimate (drop j messages)) budget ≡ false) ⊎ (t ≤ j)) is
  unfolding first_fitting
  first_fitting_first budget d t [] inc e = tt
  first_fitting_first budget d t (i ∷ is) inc e =
      elim (Bool-cases (leb (estimate (drop i messages)) budget)) [
        | inl f ↦
            let same : i ≡ t = ground arith in
            (inr (omega arith), All-map is (λ j lt. inr (omega arith)) inc.0)
        | inr f ↦ (inl f, first_fitting_first budget d t is inc.1 (ground arith))
      ]

  abbrev Fits : Budget → ℕ → Type 0
  Fits budget c = within (estimate (take c messages)) budget ≡ true

  -- The fallback's result is the one it starts with, or a boundary before the tail that fits.
  largest_prefix_cases :
      (P : ℕ → Type 0) (budget : Budget) (tail cut : ℕ) (is : List ℕ)
      → ((cut ≡ 0) ⊎ (P cut × Fits budget cut × (cut ≤ tail)))
      → All P is
      → let c = largest_prefix estimate messages budget tail cut is in
        (c ≡ 0) ⊎ (P c × Fits budget c × (c ≤ tail))
  unfolding largest_prefix
  largest_prefix_cases P budget tail cut [] p h = p
  largest_prefix_cases P budget tail cut (i ∷ is) p h = elim (Bool-cases (leb tail i)) [
    | inl e ↦ rw e p
    | inr e ↦ rw e (elim (Bool-cases (within (estimate (take i messages)) budget)) [
      | inl f ↦ rw f (largest_prefix_cases P budget tail i is (inr (h.0, f, ground arith)) h.1)
      | inr f ↦ rw f (largest_prefix_cases P budget tail cut is p h.1)
    ])
  ]

  -- What a cut of `c` with the tail's budget `tail_budget` promises.
  abbrev pub IsGoodCut : ℕ → Budget → ℕ → Type 0
  IsGoodCut tail_budget budget c =
      IsBoundary messages c
      × Fits budget c
      × All (λ j. (leb (estimate (drop j messages)) tail_budget ≡ false) ⊎ (c ≤ j))
          (assistant_boundaries messages)

  cut_at_cases :
      (P : ℕ → Type 0) (budget : Budget) (tail : ℕ) (is : List ℕ)
      → P tail
      → All P is
      → let c = cut_at estimate messages budget tail is in
        (c ≡ 0) ⊎ (P c × Fits budget c × (c ≤ tail))
  unfolding cut_at
  cut_at_cases P budget tail is p h =
      elim (Bool-cases (within (estimate (take tail messages)) budget)) [
        | inl e ↦ rw e (inr (p, e, omega arith))
        | inr e ↦ rw e (largest_prefix_cases P budget tail 0 is (inl refl) h)
      ]

  largest_prefix_positive :
      (budget : Budget) (tail cut : ℕ) (is : List ℕ)
      → 0 < cut
      → All (λ i. 0 < i) is
      → 0 < largest_prefix estimate messages budget tail cut is
  unfolding largest_prefix
  largest_prefix_positive budget tail cut [] p h = p
  largest_prefix_positive budget tail cut (i ∷ is) p h = elim (Bool-cases (leb tail i)) [
    | inl e ↦ rw e p
    | inr e ↦ rw e (elim (Bool-cases (within (estimate (take i messages)) budget)) [
      | inl f ↦ rw f (largest_prefix_positive budget tail i is h.0 h.1)
      | inr f ↦ rw f (largest_prefix_positive budget tail cut is p h.1)
    ])
  ]

  -- Where the first boundary's prefix fits, something is cut.
  cut_at_positive :
      (budget : Budget) (tail i : ℕ) (is : List ℕ)
      → Fits budget i
      → i ≤ tail
      → 0 < i
      → All (λ j. 0 < j) is
      → 0 < cut_at estimate messages budget tail (i ∷ is)
  unfolding cut_at largest_prefix
  cut_at_positive budget tail i is fits le pos all =
      elim (Bool-cases (within (estimate (take tail messages)) budget)) [
        | inl e ↦ rw e (omega arith)
        | inr e ↦ rw e (elim (Bool-cases (leb tail i)) [
          | inl g ↦
              let same : tail ≡ i = ground arith in
              let bad : within (estimate (take i messages)) budget ≡ false =
                subst (λ j. within (estimate (take j messages)) budget ≡ false) same e in
              absurd (cc)
          | inr g ↦ rw (g, fits) (largest_prefix_positive budget tail i is pos all)
        ])
      ]

  -- Not even the first boundary's prefix fits.
  abbrev pub NoneFits : Budget → List ℕ → Type 0
  NoneFits budget [] = Unit
  NoneFits budget (i ∷ is) = within (estimate (take i messages)) budget ≡ false

  cut_among-NoneFits :
      (tail_budget : ℕ) (budget : Budget) (is : List ℕ)
      → All (IsBoundary messages) is
      → IsIncreasing is
      → cut_among estimate messages tail_budget budget is ≡ 0
      → NoneFits budget is
  unfolding cut_among
  cut_among-NoneFits tail_budget budget [] all inc e = tt
  cut_among-NoneFits tail_budget budget (i ∷ is) all inc e =
      let above : All (λ j. i ≤ j) is = All-map is (λ j lt. omega arith) inc.0 in
      let here : i ≤ i = omega arith in
      let le =
        first_fitting-All (λ j. i ≤ j) tail_budget (last_of i is) (i ∷ is)
          (last_of-All (λ j. i ≤ j) i is here above) (here, above) in
      elim (Bool-cases (within (estimate (take i messages)) budget)) [
        | inl f ↦
            let more = cut_at_positive budget _ i is f le all.0.0 (All-map is (λ j b. b.0) all.1) in
            absurd (omega arith)
        | inr f ↦ f
      ]

  cut_among_cases :
      (tail_budget : ℕ) (budget : Budget) (is : List ℕ)
      → All (IsBoundary messages) is
      → IsIncreasing is
      → let c = cut_among estimate messages tail_budget budget is in
        (c ≡ 0)
        ⊎ (IsBoundary messages c
            × Fits budget c
            × All (λ j. (leb (estimate (drop j messages)) tail_budget ≡ false) ⊎ (c ≤ j)) is)
  unfolding cut_among
  cut_among_cases tail_budget budget [] all inc = inl refl
  cut_among_cases tail_budget budget (i ∷ is) all inc =
      let d = last_of i is in
      let tail = first_fitting estimate messages tail_budget d (i ∷ is) in
      let at =
        first_fitting-All (IsBoundary messages) tail_budget d (i ∷ is)
          (last_of-All (IsBoundary messages) i is all.0 all.1) all in
      elim (cut_at_cases (IsBoundary messages) budget tail (i ∷ is) at all) [
        | inl e ↦ inl e
        | inr (b, f, le) ↦ inr (
          b,
          f,
          All-map (i ∷ is) (λ j o. earlier j o le)
              (first_fitting_first tail_budget d tail (i ∷ is) inc refl),
        )
      ]
    where
      earlier :
          (j : ℕ) {t c : ℕ}
          → (leb (estimate (drop j messages)) tail_budget ≡ false) ⊎ (t ≤ j)
          → c ≤ t
          → (leb (estimate (drop j messages)) tail_budget ≡ false) ⊎ (c ≤ j)
      earlier j (inl e) le = inl e
      earlier j (inr e) le = inr (omega arith)

  -- The cut is 0 only where there is no assistant's message behind the first, or the first such has
  -- a prefix that exceeds the summary's budget. Any other cut is an assistant's message behind the
  -- first, its prefix fits the summary's budget, and the tail from any earlier assistant's message
  -- behind the first exceeds the tail's budget.
  pub select_cut-IsGoodCut :
      (tail_budget : ℕ) (budget : Budget)
      → let c = select_cut estimate messages tail_budget budget in
        ((c ≡ 0) × NoneFits budget (assistant_boundaries messages)) ⊎ IsGoodCut tail_budget budget c
  unfolding select_cut
  select_cut-IsGoodCut tail_budget budget =
      let bs = assistant_boundaries messages in
      let all = assistant_boundaries-All messages in
      let inc = assistant_boundaries-IsIncreasing messages in
      elim (cut_among_cases tail_budget budget bs all inc) [
        | inl e ↦ inl (e, cut_among-NoneFits tail_budget budget bs all inc e)
        | inr good ↦ inr good
      ]
