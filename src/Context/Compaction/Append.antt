-- ===== src/Context/Compaction/Append.antt =====
-- What a successful compaction leaves: the history with one marker more, whose context is the
-- marker and the kept tail, and is paired again.
use swain.Common.{
  ℕ, zero, suc, ◌<◌, String, true, Option, none, some, List, [], ◌∷◌, ◌++◌, ◌≡◌, refl, ◌≢◌, arith,
  sym, ap, subst, ◌∙◌, get_elem?, drop, length, Bool-cases, inl, inr, ◌⊎◌, str_eq,
}
use swain.Llms.Messages.{Message, Usage}
use swain.Llms.Client.{Request, Reply}
use swain.Session.{Session}
use swain.Context.Projection.{Projection, derive_context, compaction_block}
use swain.Context.Projection.Laws.{derive_context-IsTail, derive_context-marker}
use swain.Context.Pairing.{is_validly_paired, paired_from, tool_call_ids, tool_result_ids}
use swain.Context.Pairing.Laws.{paired_from-drop}
use swain.Context.Compaction.Laws.{compact_session_ind}
use swain.Context.Cut.Laws.{IsBoundary, select_cut-IsGoodCut}
use swain.Context.Accounting.{effective_context_window}
use swain.Context.Compaction.{
  CompactOptions, Compacted, done, refused, CompactionResult, CompactionFailure, compaction_error,
  invalid_transcript, compacted, cut_of, marker_of, source_at, commit_summary, compact_session,
  tail_budget_of, summary_budget_of, counter_of,
}

-- What holds of the session after any successful outcome.
record IsCompacted (options : CompactOptions) (clock : String) (s s' : Session) (cut : ℕ)
    : Type 0 where
  summary : String
  elapsed : ℕ
  usage : Option Usage
  same :
      s'
      ≡ compacted options clock usage summary
          (marker_of options clock (derive_context s.messages) cut summary elapsed)
          s
  paired :
      is_validly_paired (
        marker_of options clock (derive_context s.messages) cut summary elapsed
        ∷ drop cut (derive_context s.messages).messages)
      ≡ true

commit_summary-done :
    (options : CompactOptions) (clock : String) (s s' : Session) (cut elapsed : ℕ)
    (usage : Option Usage) (text : String) (r : CompactionResult)
    → commit_summary options clock s cut elapsed usage text ≡ (done r, s')
    → IsCompacted options clock s s' cut
unfolding commit_summary
commit_summary-done options clock s s' cut elapsed usage text r e = record {
  summary = text;
  elapsed = elapsed;
  usage = usage;
  same = ground arith;
  paired = ground arith;
}

get-lt : (l : List Message) (n : ℕ) (m : Message) → get_elem? l n ≡ some m → n < length l
get-lt [] n m e = absurd (cc e)
get-lt (x ∷ l) zero m e = omega arith
get-lt (x ∷ l) (suc n) m e = omega (arith, get-lt l n m e)

good : {P Q R S : Type 0} {c : ℕ} → ((c ≡ 0) × S) ⊎ (P × Q × R) → 0 < c → P
good {c = c} (inl e) l = let none : c ≡ 0 = e.0 in absurd (omega arith)
good (inr h) l = h.0

cut_of-IsBoundary :
    (options : CompactOptions) (s : Session)
    → 0 < cut_of options s
    → IsBoundary (derive_context s.messages).messages (cut_of options s)
unfolding cut_of
cut_of-IsBoundary options s p =
    let eff = effective_context_window s.system_context.model in
    let context = (derive_context s.messages).messages in
    good {P = IsBoundary context (cut_of options s)}
      (select_cut-IsGoodCut (counter_of options).estimate_messages context
        (tail_budget_of options eff) (summary_budget_of eff))
      p

source_at-some :
    (p : Projection) (cut j : ℕ)
    → get_elem? p.source_index cut ≡ some (some j)
    → source_at p cut ≡ some j
source_at-some p cut j e = rw (e, source_at) refl

marker-context :
    (options : CompactOptions) (clock summary : String) (elapsed cut : ℕ) (s : Session)
    → IsBoundary (derive_context s.messages).messages cut
    → let meta = marker_of options clock (derive_context s.messages) cut summary elapsed in
      (derive_context (s.messages ++ meta ∷ [])).messages
      ≡ meta ∷ drop cut (derive_context s.messages).messages
unfolding compaction_block
marker-context options clock summary elapsed cut s (pos, m, found, a) =
    let (j, tail) = derive_context-IsTail s.messages cut pos (get-lt _ cut m found) in
    let p = derive_context s.messages in
    let meta = marker_of options clock p cut summary elapsed in
    derive_context-marker s.messages meta _ j refl (source_at-some p cut j tail.0) tail.2
    ∙ ap (λ l. meta ∷ l) tail.1

-- What is shown of a successful outcome.
abbrev IsDone : String → CompactOptions → Session → Compacted × Session → Type 0
IsDone clock options s (done r, s') =
    (0 < cut_of options s) × IsCompacted options clock s s' (cut_of options s)
IsDone clock options s (refused f, s') = Unit

outcome-cases :
    (o : Compacted × Session)
    → ((r : CompactionResult) × (s' : Session) × (o ≡ (done r, s')))
      ⊎ ((f : CompactionFailure) × (s' : Session) × (o ≡ (refused f, s')))
outcome-cases (done r, s') = inl (r, s', refl)
outcome-cases (refused f, s') = inr (f, s', refl)

commit_summary-IsDone :
    (clock : String) (options : CompactOptions) (s : Session)
    → 0 < cut_of options s
    → (elapsed : ℕ) (usage : Option Usage) (text : String)
    → IsDone clock options s (commit_summary options clock s (cut_of options s) elapsed usage text)
commit_summary-IsDone clock options s pos elapsed usage text =
    let cut = cut_of options s in
    elim (outcome-cases (commit_summary options clock s cut elapsed usage text)) [
      | inl (r, s', e) ↦
          subst (IsDone clock options s) (sym e)
            (pos, commit_summary-done options clock s s' cut elapsed usage text r e)
      | inr (f, s', e) ↦ subst (IsDone clock options s) (sym e) tt
    ]

compact_session-IsDone :
    (generate : Request → Reply × ℕ) (clock : String) (options : CompactOptions) (s : Session)
    → IsDone clock options s (compact_session generate clock options s)
compact_session-IsDone generate clock options s =
    compact_session_ind (IsDone clock options s) clock options s (λ f h. tt) generate
      (commit_summary-IsDone clock options s)

-- A successful compaction cuts the context at an assistant's message behind its first, and appends
-- one message to the history, of which nothing is lost. The new context is that message and the
-- old context from the cut on, it is validly paired, and the usage snapshot is gone.
pub compact_session_done :
    (generate : Request → Reply × ℕ) (clock : String) (options : CompactOptions) (s s' : Session)
    (r : CompactionResult)
    → compact_session generate clock options s ≡ (done r, s')
    → let context = (derive_context s.messages).messages in
      let cut = cut_of options s in
      IsBoundary context cut
      × (meta : Message) × (s'.messages ≡ s.messages ++ meta ∷ [])
      × ((derive_context s'.messages).messages ≡ meta ∷ drop cut context)
      × (is_validly_paired (derive_context s'.messages).messages ≡ true)
      × (s'.context_usage ≡ none)
compact_session_done generate clock options s s' r e =
    let h : IsDone clock options s (done r, s') =
      subst (IsDone clock options s) e (compact_session-IsDone generate clock options s) in
    let pos = h.0 in
    let c = h.1 in
    let cut = cut_of options s in
    let at = cut_of-IsBoundary options s pos in
    let meta = marker_of options clock (derive_context s.messages) cut c.summary c.elapsed in
    let context =
      ap (λ x. (derive_context x.messages).messages) c.same
      ∙ marker-context options clock c.summary c.elapsed cut s at in
    (
      at,
      meta,
      ap (λ x. x.messages) c.same,
      context,
      ap is_validly_paired context ∙ c.paired,
      ap (λ x. x.context_usage) c.same,
    )

-- What is shown of a failure: the session, and in a paired context no failure of the check.
abbrev IsRefused : Session → Compacted × Session → Type 0
IsRefused s (done r, s') = Unit
IsRefused s (refused f, s') =
    (s' ≡ s)
    × (is_validly_paired (derive_context s.messages).messages ≡ true
        → f ≢ compaction_error invalid_transcript)

marker-paired :
    (options : CompactOptions) (clock summary : String) (elapsed cut : ℕ) (s : Session)
    → IsBoundary (derive_context s.messages).messages cut
    → is_validly_paired (derive_context s.messages).messages ≡ true
    → let context = derive_context s.messages in
      is_validly_paired
        (marker_of options clock context cut summary elapsed ∷ drop cut context.messages)
      ≡ true
unfolding is_validly_paired paired_from tool_call_ids tool_result_ids
marker-paired options clock summary elapsed cut s (pos, m, found, a) h =
    paired_from-drop none (some _) cut (derive_context s.messages).messages m found a h

commit_summary-IsRefused :
    (clock : String) (options : CompactOptions) (s : Session)
    → 0 < cut_of options s
    → (elapsed : ℕ) (usage : Option Usage) (text : String)
    → IsRefused s (commit_summary options clock s (cut_of options s) elapsed usage text)
unfolding commit_summary
commit_summary-IsRefused clock options s pos elapsed usage text =
    let cut = cut_of options s in
    let context = derive_context s.messages in
    let meta = marker_of options clock context cut text elapsed in
    elim (Bool-cases (str_eq text "")) [
      | inl e ↦ rw e (refl, λ h f. cc f)
      | inr e ↦ rw e (elim (Bool-cases (is_validly_paired (meta ∷ drop cut context.messages))) [
        | inl k ↦ rw k tt
        | inr k ↦ rw k (
          refl,
          λ h f. cc (
            k,
            marker-paired options clock text elapsed cut s (cut_of-IsBoundary options s pos) h,
          ),
        )
      ])
    ]

compact_session-IsRefused :
    (generate : Request → Reply × ℕ) (clock : String) (options : CompactOptions) (s : Session)
    → IsRefused s (compact_session generate clock options s)
compact_session-IsRefused generate clock options s =
    compact_session_ind (IsRefused s) clock options s (λ f h. (refl, λ _. h)) generate
      (commit_summary-IsRefused clock options s)

-- A compaction that fails leaves the session as it was, whatever the reason.
pub compact_session_refused :
    (generate : Request → Reply × ℕ) (clock : String) (options : CompactOptions) (s s' : Session)
    (f : CompactionFailure)
    → compact_session generate clock options s ≡ (refused f, s')
    → s' ≡ s
compact_session_refused generate clock options s s' f e =
    (subst (IsRefused s) e (compact_session-IsRefused generate clock options s)).0

-- Where the context is validly paired, no compaction fails for splitting a pair of a tool call and
-- its result.
pub compact_session_splits_none :
    (generate : Request → Reply × ℕ) (clock : String) (options : CompactOptions) (s : Session)
    → is_validly_paired (derive_context s.messages).messages ≡ true
    → (compact_session generate clock options s).0 ≢ refused (compaction_error invalid_transcript)
compact_session_splits_none generate clock options s paired e =
    (subst (IsRefused s) (ap (λ x. (x, (compact_session generate clock options s).1)) e)
        (compact_session-IsRefused generate clock options s)).1
      paired refl
