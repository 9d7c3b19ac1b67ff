-- ===== src/Context/Compaction/Laws.antt =====
-- The outcomes of `compactSession`: a refusal that leaves the session, or what its commit gives.
use swain.Common.{
  ℕ, ◌<◌, String, List, [], ◌∷◌, ◌≢◌, arith, Bool-cases, inl, inr, ltb, Option, trim,
}
use swain.Llms.Messages.{Usage, ToolCall}
use swain.Llms.Turn.{Checked, Summary, fine, invalid, from_events}
use swain.Llms.Client.{Request, Reply, replied, failed}
use swain.Session.{Session}
use swain.Context.Compaction.{
  CompactOptions, Compacted, refused, CompactionFailure, llm_error, compaction_error,
  invalid_transcript, cut_of, commit_summary, accept_summary, decode_summary, receive,
  compact_session,
}

-- To show something of every outcome, show it of the refusals before the pairing check, and of the
-- commit.
module _ (Q : Compacted × Session → Type 0) (clock : String) (options : CompactOptions)
    (s : Session)
    (stays : (f : CompactionFailure)
      → f ≢ compaction_error invalid_transcript
      → Q (refused f, s)) where
  accept_summary_ind :
      (cut elapsed : ℕ) (usage : Option Usage) (text : String) (calls : List ToolCall)
      → Q (commit_summary options clock s cut elapsed usage (trim text))
      → Q (accept_summary options clock s cut elapsed usage text calls)
  unfolding accept_summary
  accept_summary_ind cut elapsed usage text [] h = h
  accept_summary_ind cut elapsed usage text (c ∷ cs) h = stays _ (λ e. cc e)

  module _ (cut : ℕ)
      (commits : (elapsed : ℕ) (usage : Option Usage) (text : String)
        → Q (commit_summary options clock s cut elapsed usage text)) where
    decode_summary_ind :
        (elapsed : ℕ) (summary : Checked Summary)
        → Q (decode_summary options clock s cut elapsed summary)
    unfolding decode_summary
    decode_summary_ind elapsed (invalid m) = stays _ (λ e. cc e)
    decode_summary_ind elapsed (fine m) =
        accept_summary_ind cut elapsed m.usage m.text m.tool_calls
          (commits elapsed m.usage (trim m.text))

    receive_ind : (reply : Reply × ℕ) → Q (receive options clock s cut reply)
    unfolding receive
    receive_ind (failed f, elapsed) = stays (llm_error f) (λ e. cc e)
    receive_ind (replied events, elapsed) = decode_summary_ind elapsed (from_events events)

  pub compact_session_ind :
      (generate : Request → Reply × ℕ)
      → (0 < cut_of options s
          → (elapsed : ℕ) (usage : Option Usage) (text : String)
          → Q (commit_summary options clock s (cut_of options s) elapsed usage text))
      → Q (compact_session generate clock options s)
  unfolding compact_session
  compact_session_ind generate commits = elim (Bool-cases (ltb 0 (cut_of options s))) [
    | inl e ↦ rw e (receive_ind (cut_of options s) (commits (ground arith)) _)
    | inr e ↦ rw e (stays _ (λ f. cc f))
  ]
