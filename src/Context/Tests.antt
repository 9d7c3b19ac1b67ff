-- ===== src/Context/Tests.antt =====
-- Runs of the projection, the cut and a compaction, and instances of the theorems.
use swain.Common.{
  ℕ, ◌+◌, ◌*◌, ◌≤◌, String, true, false, none, some, List, [], ◌∷◌, ◌++◌, ◌≡◌, refl, ◌≢◌, drop,
  trim, lookup, insert, values, ◌⊎◌,
}
use swain.Llms.Messages.{
  Message, user, assistant, UserContent, tool_result, AssistantContent, tool_call, ToolResultValue,
  auto, Usage, Timing,
}
use swain.Llms.Turn.{text_start, text_delta, finished, stop, from_events}
use swain.Llms.Client.{Request, Reply, replied}
use swain.Session.{Session, Model, PermissionMode}
use swain.Context.Tokens.{default_token_counter, estimate_messages}
use swain.Context.Projection.{derive_context, is_marker}
use swain.Context.Pairing.{is_validly_paired, tool_call_ids, tool_result_ids}
use swain.Context.Cut.{at_most, assistant_boundaries, select_cut}
use swain.Context.Cut.Laws.{IsBoundary, IsGoodCut, NoneFits, select_cut-IsGoodCut}
use swain.Context.Accounting.{
  output_reserve_cap, context_window, effective_context_window, record_context_usage,
  active_context_tokens, estimate_current_context_tokens,
}
use swain.Context.Accounting.Laws.{
  effective_context_window_bounds, estimate_current_context_tokens-append,
}
use swain.Context.Compaction.{
  CompactOptions, done, refused, compaction_error, nothing_to_compact, CompactionProblem,
  CompactionResult, compact_session, cut_of, summary_request, add_usage,
}
use swain.Context.Compaction.Append.{
  compact_session_done, compact_session_refused, compact_session_splits_none,
}

abbrev timing : Timing
timing = record { created_at = "t"; response_duration_ms = none; turn_duration_ms = none }

abbrev asks : String → Message
asks s = user (record { content = UserContent.text s ∷ []; is_meta = false; timing = timing })

abbrev says : String → Message
says s =
    assistant (record { content = AssistantContent.text s ∷ []; usage = none; timing = timing })

abbrev calls : String → Message
calls id = assistant (record {
  content = tool_call (record { tool_call_id = id; name = "Read"; input = none }) ∷ [];
  usage = none;
  timing = timing;
})

abbrev answers : String → Message
answers id = user (record {
  content =
      tool_result (record {
        tool_call_id = id;
        name = none;
        result = ToolResultValue.text "ok";
        is_error = none;
        duration_ms = none;
      })
      ∷ [];
  is_meta = false;
  timing = timing;
})

abbrev history : List Message
history = asks "hi" ∷ calls "c" ∷ answers "c" ∷ says "bye" ∷ []

abbrev model : Model
model = record {
  id = "m";
  provider = "p";
  limits = some (record { context_window = some 10000; max_output_tokens = some 4000 });
  warn_on_reasoning_loss = none;
}

abbrev session : List Message → Session
session ms = record {
  session_id = "s";
  working_directory = "/w";
  system_context = record {
    model = model;
    request_options = record { provider_options = none; generation = none };
    model_ref = record { provider = "p"; model_id = "m"; variant = none };
    past_models = [];
    permission_mode = PermissionMode.ask;
    current_date = "d";
  };
  messages = ms;
  counters = record { turns = 0; input_tokens = 0; output_tokens = 0 };
  compaction = record {
    auto_enabled = true;
    failure_reason = none;
    last_compacted_at = none;
    summary = none;
  };
  tool_results = [];
  context_usage = none;
}

abbrev options : CompactOptions
options = record { reason = auto; counter = none; tail_budget = some 5; now = some "now" }

abbrev reply : Request → Reply × ℕ
reply r = (
  replied (
      text_start "t"
      ∷ text_delta "t" " sum "
      ∷ finished (record { reason = stop; usage = none })
      ∷ []),
  7,
)

program : Unit {0}
unfolding compact_session is_marker tool_call_ids tool_result_ids cut_of summary_request add_usage
    derive_context is_validly_paired select_cut effective_context_window estimate_messages
    from_events trim lookup insert values
program = tt

history_paired : is_validly_paired history ≡ true
unfolding program
history_paired = refl

history_paired_derived : is_validly_paired (derive_context history).messages ≡ true
unfolding program
history_paired_derived = refl

cut_history : cut_of options (session history) ≡ 3
unfolding program
cut_history = refl

abbrev result : CompactionResult
result = record { compacted_messages = 3; summary = "sum" }

compact_runs : (compact_session reply "c" options (session history)).0 ≡ done result
unfolding program
compact_runs = refl

compact_short :
    compact_session reply "c" options (session [])
    ≡ (refused (compaction_error nothing_to_compact), session [])
unfolding program
compact_short = refl

select_cut-IsGoodCut_example :
    let c = select_cut estimate_messages history 5 (at_most 100) in
    ((c ≡ 0) × NoneFits estimate_messages history (at_most 100) (assistant_boundaries history))
    ⊎ IsGoodCut estimate_messages history 5 (at_most 100) c
select_cut-IsGoodCut_example = select_cut-IsGoodCut estimate_messages history 5 (at_most 100)

after_history : Session
after_history = (compact_session reply "c" options (session history)).1

compact_splits : compact_session reply "c" options (session history) ≡ (done result, after_history)
unfolding program after_history
compact_splits = refl

compact_session_done_example :
    let context = (derive_context history).messages in
    let cut = cut_of options (session history) in
    IsBoundary context cut
    × (meta : Message) × (after_history.messages ≡ history ++ meta ∷ [])
    × ((derive_context after_history.messages).messages ≡ meta ∷ drop cut context)
    × (is_validly_paired (derive_context after_history.messages).messages ≡ true)
    × (after_history.context_usage ≡ none)
compact_session_done_example =
    compact_session_done reply "c" options (session history) after_history result compact_splits

compact_session_refused_example : session [] ≡ session []
compact_session_refused_example =
    compact_session_refused reply "c" options (session []) (session [])
      (compaction_error nothing_to_compact) compact_short

compact_session_splits_none_example :
    (compact_session reply "c" options (session history)).0
    ≢ refused (compaction_error CompactionProblem.invalid_transcript)
compact_session_splits_none_example =
    compact_session_splits_none reply "c" options (session history) history_paired_derived

effective_context_window_bounds_example :
    (e : ℕ) × (effective_context_window model ≡ some e)
    × (10000 ≤ 2 * e)
    × (e ≤ 10000)
    × (10000 ≤ e + output_reserve_cap)
unfolding context_window
effective_context_window_bounds_example = effective_context_window_bounds model 10000 refl

abbrev usage : Usage
usage = record { input_tokens = 5; output_tokens = 6; active_context_tokens = none }

estimate_current_context_tokens-append_example :
    let s' = record_context_usage (session history) usage in
    estimate_current_context_tokens
      (record s' { messages = history ++ asks "more" ∷ [] })
      (record { system = none; tools = [] })
      default_token_counter
    ≡ active_context_tokens usage + estimate_messages (asks "more" ∷ [])
estimate_current_context_tokens-append_example =
    estimate_current_context_tokens-append (session history) usage (asks "more" ∷ [])
      (record { system = none; tools = [] }) default_token_counter
