-- ===== src/Context/Compaction.antt =====
-- `compactSession` of packages/core/src/context/compaction.ts: the older part of the context is
-- summarized by the session's model, and a marker with the summary is appended to the history.
--
-- `generate` is the client: its reply to a request, with the milliseconds that it took. `clock` is
-- the time where the options give none; the code may read it twice.
mod Texts
pub mod Laws
pub mod Append
use swain.Common.{
  ℕ, ◌+◌, ◌-◌, ◌/◌, min, String, Bool, true, false, not, Option, none, some, List, [], ◌∷◌, ◌++◌,
  ltb, if◌then◌else◌, length, take, drop, filter, get_elem?, trim, str_eq,
}
use swain.Llms.Messages.{Usage, ToolCall, CompactionReason, UserContent, compaction, Message, user}
use swain.Llms.Turn.{Summary, Checked, fine, invalid, from_events}
use swain.Llms.Client.{LlmError, invalid_provider_output, Request, Reply, replied, failed}
use swain.Session.{Session, SessionCounters}
use swain.Context.Tokens.{TokenCounter, default_token_counter}
use swain.Context.Projection.{Projection, derive_context, is_marker}
use swain.Context.Pairing.{is_validly_paired}
use swain.Context.Cut.{Budget, unbounded, at_most, negative, select_cut}
use swain.Context.Accounting.{effective_context_window, max_output_tokens}
use Texts.{summary_system}

pub data CompactionProblem : Type 0 where
  nothing_to_compact empty_summary tool_call invalid_transcript : CompactionProblem

pub data CompactionFailure : Type 0 where
  compaction_error : CompactionProblem → CompactionFailure
  llm_error : LlmError → CompactionFailure

pub record CompactionResult : Type 0 where
  pub compacted_messages : ℕ
  pub summary : String

pub data Compacted : Type 0 where
  done : CompactionResult → Compacted
  refused : CompactionFailure → Compacted

pub record CompactOptions : Type 0 where
  pub reason : CompactionReason
  pub counter : Option TokenCounter
  pub tail_budget : Option ℕ
  pub now : Option String

abbrev default_tail_budget : ℕ
default_tail_budget = 20000

abbrev summary_prompt_overhead : ℕ
summary_prompt_overhead = 1000

abbrev or_default {ℓ} : {A : Type ℓ} → Option A → A → A
or_default none d = d
or_default (some a) d = a

abbrev pub counter_of : CompactOptions → TokenCounter
counter_of options = or_default options.counter default_token_counter

tail_budget_of : CompactOptions → Option ℕ → ℕ
tail_budget_of options none = or_default options.tail_budget default_tail_budget
tail_budget_of options (some eff) =
    min (or_default options.tail_budget default_tail_budget) (eff / 2)

summary_budget_of : Option ℕ → Budget
summary_budget_of none = unbounded
summary_budget_of (some eff) =
    if ltb eff summary_prompt_overhead then negative else at_most (eff - summary_prompt_overhead)

unfoldable pub cut_of : CompactOptions → Session → ℕ
unfolding tail_budget_of summary_budget_of
cut_of options s =
    let eff = effective_context_window s.system_context.model in
    select_cut (counter_of options).estimate_messages (derive_context s.messages).messages
      (tail_budget_of options eff) (summary_budget_of eff)

unfoldable pub summary_request : Session → List Message → Request
summary_request s prefix = record {
  provider = s.system_context.model.provider;
  model_id = s.system_context.model.id;
  system = summary_system;
  messages = prefix;
  tools = [];
  generation = none;
  max_tokens = some (
      min default_tail_budget
        (or_default (max_output_tokens s.system_context.model) default_tail_budget));
  provider_options = s.system_context.request_options.provider_options;
}

-- `sourceIndex[cut]`, which is in range and no -1.
abbrev pub source_at : Projection → ℕ → Option ℕ
source_at p cut = elim (get_elem? p.source_index cut) [ none ↦ none | some i ↦ i ]

abbrev pub marker_of : CompactOptions → String → Projection → ℕ → String → ℕ → Message
marker_of options clock context cut summary elapsed = user (record {
  content =
      compaction (record {
        reason = options.reason;
        compacted_messages = length (filter (λ m. not (is_marker m)) (take cut context.messages));
        summary = summary;
        context_tail_start = source_at context cut;
      })
      ∷ [];
  is_meta = true;
  timing = record {
    created_at = or_default options.now clock;
    response_duration_ms = some elapsed;
    turn_duration_ms = none;
  };
})

unfoldable pub add_usage : Option Usage → SessionCounters → SessionCounters
add_usage none c = c
add_usage (some u) c = record c {
  input_tokens = c.input_tokens + u.input_tokens;
  output_tokens = c.output_tokens + u.output_tokens;
}

-- The state after the commit point.
abbrev pub compacted : CompactOptions → String → Option Usage → String → Message → Session → Session
compacted options clock usage text meta s = record s {
  messages = s.messages ++ meta ∷ [];
  counters = add_usage usage s.counters;
  compaction = record (s.compaction) {
    last_compacted_at = some (or_default options.now clock);
    summary = some text;
  };
  context_usage = none;
}

-- From the summary's text on.
pub commit_summary :
    CompactOptions → String → Session → ℕ → ℕ → Option Usage → String → Compacted × Session
commit_summary options clock s cut elapsed usage text =
    let context = derive_context s.messages in
    let meta = marker_of options clock context cut text elapsed in
    if str_eq text ""
    then (refused (compaction_error empty_summary), s)
    else (if is_validly_paired (meta ∷ drop cut context.messages)
        then (
          done (record {
            compacted_messages =
                length (filter (λ m. not (is_marker m)) (take cut context.messages));
            summary = text;
          }),
          compacted options clock usage text meta s,
        )
        else (refused (compaction_error invalid_transcript), s))

accept_summary :
    CompactOptions
    → String
    → Session
    → ℕ
    → ℕ
    → Option Usage
    → String
    → List ToolCall
    → Compacted × Session
unfolding commit_summary
accept_summary options clock s cut elapsed usage text (c ∷ cs) =
    (refused (compaction_error tool_call), s)
accept_summary options clock s cut elapsed usage text [] =
    commit_summary options clock s cut elapsed usage (trim text)

decode_summary : CompactOptions → String → Session → ℕ → ℕ → Checked Summary → Compacted × Session
unfolding accept_summary
decode_summary options clock s cut elapsed (invalid m) = (
  refused (llm_error (record { reason = invalid_provider_output; message = m; retryable = false })),
  s,
)
decode_summary options clock s cut elapsed (fine summary) =
    accept_summary options clock s cut elapsed summary.usage summary.text summary.tool_calls

receive : CompactOptions → String → Session → ℕ → Reply × ℕ → Compacted × Session
unfolding decode_summary
receive options clock s cut (failed e, elapsed) = (refused (llm_error e), s)
receive options clock s cut (replied events, elapsed) =
    decode_summary options clock s cut elapsed (from_events events)

unfoldable pub compact_session :
    (Request → Reply × ℕ) → String → CompactOptions → Session → Compacted × Session
unfolding receive
compact_session generate clock options s =
    let cut = cut_of options s in
    let prefix = take cut (derive_context s.messages).messages in
    if ltb 0 cut
    then receive options clock s cut (generate (summary_request s prefix))
    else (refused (compaction_error nothing_to_compact), s)
