-- ===== src/Agent/Storage/Laws.antt =====
-- The store of tool results fills the loop's interface, saves a body once and shows a bounded preview.
use Prim.Native.Char.{code}
use Prim.Native.String.{[], ◌∷◌}
use mathlib.Core.List as L
use swain.Common.{
  ℕ, ◌≤◌, ◌-◌, String, Bool, true, false, Option, none, some, List, ◌≡◌, refl, arith, inl, inr, ◌⊎◌,
  Bool-cases, Option-cases, str_eq, leb, ltb, text_length, take_units, eq_refl, ap, if_both,
}
use swain.Llms.Messages.{Json, ToolResult, ToolResultValue}
use swain.Session.{ToolResultReplacement}
use swain.Agent.State.{ToolResultStore}
use swain.Agent.Storage.{
  Body, Files, body_of, wrap, find_replacement, replaced, recorded, save, stored, persist,
  tool_result_threshold, tool_result_preview_chars,
}

take_units-bounded : (n : ℕ) (s : String) → text_length (take_units n s) ≤ n
unfolding take_units text_length
take_units-bounded n [] = omega arith
take_units-bounded n (c ∷ s) =
    let rest₁ = take_units-bounded (n - 1) s in
    let rest₂ = take_units-bounded (n - 2) s in
    elim (Bool-cases (leb 0x10000 (code c))) [
      | inl wide ↦ elim (Bool-cases (ltb n 2)) [
        | inl full ↦ rw (wide, full) (omega arith)
        | inr free ↦
            let fits : 2 ≤ n = ground arith in
            rw (wide, free, text_length, wide) (omega (arith, rest₂, fits))
      ]
      | inr narrow ↦ elim (Bool-cases (ltb n 1)) [
        | inl full ↦ rw (narrow, full) (omega arith)
        | inr free ↦
            let fits : 1 ≤ n = ground arith in
            rw (narrow, free, text_length, narrow) (omega (arith, rest₁, fits))
      ]
    ]

find_replacement-snoc :
    (id : String) (rs : List ToolResultReplacement) (e : ToolResultReplacement)
    → find_replacement id rs ≡ none
    → e.tool_call_id ≡ id
    → find_replacement id (L.◌++◌ rs (L.◌∷◌ e L.[])) ≡ some e
unfolding find_replacement
find_replacement-snoc id L.[] e h k = rw (k, eq_refl id) refl
find_replacement-snoc id (L.◌∷◌ r rs) e h k = elim (Bool-cases (str_eq r.tool_call_id id)) [
  | inl same ↦ absurd (ground arith)
  | inr other ↦
      let rest : find_replacement id rs ≡ none = ground arith in
      rw (find_replacement, other) (find_replacement-snoc id rs e rest k)
]

module _ {W : Type 0} (files : Files W) (pretty : Json → String) (dir : String) where
  -- A result as it was, or a preview.
  abbrev pub IsPreview : ToolResult → ToolResult → Type 0
  IsPreview r out =
      (out ≡ r)
      ⊎ ((n : ℕ) × (path preview : String) × (out.result
            ≡ ToolResultValue.text (wrap n path preview))
          × (text_length preview ≤ tool_result_preview_chars))

  replaced-IsPreview :
      (r : ToolResult) (content path : String) → IsPreview r (replaced r content path)
  replaced-IsPreview r content path = inr (
    text_length content,
    path,
    take_units tool_result_preview_chars content,
    refl,
    take_units-bounded tool_result_preview_chars content,
  )

  recorded-IsPreview :
      (rs : List ToolResultReplacement) (r : ToolResult) (body : Body) (done : Bool × W)
      → IsPreview r (recorded files pretty dir rs r body done).0.0
  unfolding recorded
  recorded-IsPreview rs r body (false, w) = inl refl
  recorded-IsPreview rs r body (true, w) = replaced-IsPreview r body.content _

  save-IsPreview :
      (rs : List ToolResultReplacement) (r : ToolResult) (body : Body) (made : Bool × W)
      → IsPreview r (save files pretty dir rs r body made).0.0
  unfolding save
  save-IsPreview rs r body (false, w) = inl refl
  save-IsPreview rs r body (true, w) = recorded-IsPreview rs r body _

  stored-IsPreview :
      (rs : List ToolResultReplacement) (r : ToolResult) (body : Body)
      (old : Option ToolResultReplacement) (w : W)
      → IsPreview r (stored files pretty dir rs r body old w).0.0
  unfolding stored
  stored-IsPreview rs r body (some old) w = replaced-IsPreview r body.content old.path
  stored-IsPreview rs r body none w = save-IsPreview rs r body _

  -- A result that is longer than the threshold, where the session does not list it yet and its file
  -- cannot be written, and one that is not longer, stay as they are; of every other the transcript
  -- gets a text with a preview of at most the limit's length.
  pub persist-IsPreview :
      (rs : List ToolResultReplacement) (r : ToolResult) (w : W)
      → IsPreview r (persist files pretty dir rs r w).0.0
  unfolding persist
  persist-IsPreview rs r w =
      let body = body_of pretty r in
      if_both (λ (p : (ToolResult × List ToolResultReplacement) × W). IsPreview r p.0.0)
        (leb (text_length body.content) tool_result_threshold) (inl refl)
        (stored-IsPreview rs r body (find_replacement r.tool_call_id rs) w)

  -- Larger than the threshold.
  abbrev pub IsOversized : ToolResult → Type 0
  IsOversized r = leb (text_length (body_of pretty r).content) tool_result_threshold ≡ false

  persist-listed :
      (rs : List ToolResultReplacement) (r : ToolResult) (w : W) (old : ToolResultReplacement)
      → IsOversized r
      → find_replacement r.tool_call_id rs ≡ some old
      → persist files pretty dir rs r w ≡ ((replaced r (body_of pretty r).content old.path, rs), w)
  unfolding persist stored
  persist-listed rs r w old big e = rw (big, e) refl

  -- What a save of an oversized result leaves: it as it was, with nothing recorded, or a replacement
  -- with the recorded path.
  abbrev pub IsSaved :
      List ToolResultReplacement
      → ToolResult
      → (ToolResult × List ToolResultReplacement) × W
      → Type 0
  IsSaved rs r p =
      ((p.0.0 ≡ r) × (p.0.1 ≡ rs))
      ⊎ ((old : ToolResultReplacement) × (find_replacement r.tool_call_id p.0.1 ≡ some old)
          × (p.0.0 ≡ replaced r (body_of pretty r).content old.path))

  recorded-IsSaved :
      (rs : List ToolResultReplacement) (r : ToolResult) (done : Bool × W)
      → find_replacement r.tool_call_id rs ≡ none
      → IsSaved rs r (recorded files pretty dir rs r (body_of pretty r) done)
  unfolding recorded
  recorded-IsSaved rs r (false, w) e = inl (refl, refl)
  recorded-IsSaved rs r (true, w) e =
      inr (_, find_replacement-snoc r.tool_call_id rs _ e refl, refl)

  save-IsSaved :
      (rs : List ToolResultReplacement) (r : ToolResult) (made : Bool × W)
      → find_replacement r.tool_call_id rs ≡ none
      → IsSaved rs r (save files pretty dir rs r (body_of pretty r) made)
  unfolding save
  save-IsSaved rs r (false, w) e = inl (refl, refl)
  save-IsSaved rs r (true, w) e = recorded-IsSaved rs r _ e

  persist-IsSaved :
      (rs : List ToolResultReplacement) (r : ToolResult) (w : W)
      → IsOversized r
      → IsSaved rs r (persist files pretty dir rs r w)
  unfolding persist stored
  persist-IsSaved rs r w big = elim (Option-cases (find_replacement r.tool_call_id rs)) [
    | inl e ↦ rw (persist, big, e) (save-IsSaved rs r (files.make_directory dir w) e)
    | inr (old, e) ↦ rw (persist, big, e) (inr (old, e, refl))
  ]

  -- A save of an oversized result either fails on the disk, and leaves the result and the list of
  -- replacements as they were, or gives a replacement that shows a recorded path; then a later save
  -- of an oversized result of the same call shows the same path, writes nothing and records nothing.
  pub persist_once :
      (rs : List ToolResultReplacement) (r later : ToolResult) (w w' : W)
      → IsOversized r
      → IsOversized later
      → later.tool_call_id ≡ r.tool_call_id
      → let p = persist files pretty dir rs r w in
        ((p.0.0 ≡ r) × (p.0.1 ≡ rs))
        ⊎ ((path : String) × (p.0.0 ≡ replaced r (body_of pretty r).content path)
            × (persist files pretty dir p.0.1 later w'
                ≡ ((replaced later (body_of pretty later).content path, p.0.1), w')))
  persist_once rs r later w w' big bigger same = elim (persist-IsSaved rs r w big) [
    | inl failed ↦ inl failed
    | inr (old, listed, shown) ↦
        let again : find_replacement later.tool_call_id _ ≡ some old = rw same listed in
        inr (old.path, shown, persist-listed _ later w' old bigger again)
  ]

  pub tool_call_id-persist :
      (rs : List ToolResultReplacement) (r : ToolResult) (w : W)
      → (persist files pretty dir rs r w).0.0.tool_call_id ≡ r.tool_call_id
  unfolding persist
  tool_call_id-persist rs r w =
      elim (Bool-cases (leb (text_length (body_of pretty r).content) tool_result_threshold)) [
        | inl small ↦ rw (persist, small) refl
        | inr big ↦ elim (persist-IsSaved rs r w big) [
          | inl (same, _) ↦ ap (λ x. x.tool_call_id) same
          | inr (old, _, shown) ↦ ap (λ x. x.tool_call_id) shown
        ]
      ]

  -- The store as the loop takes it.
  abbrev pub tool_result_store : ToolResultStore W
  tool_result_store = record {
    persist = λ rs r w. persist files pretty dir rs r w;
    same_call = λ rs r w. tool_call_id-persist rs r w;
  }
