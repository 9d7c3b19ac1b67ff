-- ===== src/Agent/Tests.antt =====
-- Runs of the loop over a scripted provider, and instances of the theorems.
use swain.Common.{
  ℕ, zero, suc, ◌+◌, ◌*◌, ◌≤◌, true, false, none, some, List, [], ◌∷◌, ◌++◌, ◌≡◌, refl, length,
  insert, lookup, values, ◌⊎◌,
}
use swain.Llms.Messages.{
  Message, user, assistant, UserContent, AssistantContent, tool_call, ToolCall, AssistantMessage,
}
use swain.Llms.Turn.{
  LlmEvent, text_start, text_delta, tool_input_start, tool_input_end, call, finished, stop,
  from_events,
}
use swain.Llms.Client.{network_error, Reply, replied, failed}
use swain.Session.{
  Session, PermissionMode, ModelTransition, record_model_transition, model_ref_key, same_target,
  with_past,
}
use swain.Context.Pairing.{is_validly_paired, tool_call_ids, tool_result_ids}
use swain.Context.Projection.{derive_context, is_marker}
use swain.Context.Accounting.{record_context_usage}
use swain.Agent.Tools.{Tool, parsed, success, call_tool}
use swain.Agent.Tools.Plan.{call_tool-plan}
use swain.Agent.State.{set_last, Host, LoopContext, State, completed, resolved}
use swain.Agent.Interrupt.{record_interruption}
use swain.Agent.Interrupt.Laws.{record_interruption-IsPaired}
use swain.Agent.Switch.{resolve_switch}
use swain.Agent.Loop.{loop}
use swain.Agent.Loop.Transcript.{loop-IsPaired}
use swain.Agent.Loop.Budget.{loop-sent}
use swain.Agent.Loop.Switching.{switches, Same, Once}
use swain.Agent.Loop.Once.{loop-switches}
use swain.Agent.Turn.{run_turn}
use swain.Agent.Turn.Bounds.{run_turn-sent}

abbrev question : Message
question = user (record {
  content = UserContent.text "read it" ∷ [];
  is_meta = false;
  timing = record { created_at = "t"; response_duration_ms = none; turn_duration_ms = none };
})

abbrev session : Session
session = record {
  session_id = "s";
  working_directory = "/w";
  system_context = record {
    model = record { id = "m"; provider = "p"; limits = none; warn_on_reasoning_loss = none };
    request_options = record { provider_options = none; generation = none };
    model_ref = record { provider = "p"; model_id = "m"; variant = none };
    past_models = [];
    permission_mode = PermissionMode.ask;
    current_date = "d";
  };
  messages = question ∷ [];
  counters = record { turns = 0; input_tokens = 0; output_tokens = 0 };
  compaction = record {
    auto_enabled = true;
    failure_reason = none;
    last_compacted_at = none;
    summary = none;
  };
  tool_results = [];
  context_usage = none;
}

abbrev read_call : ToolCall
read_call = record { tool_call_id = "c"; name = "Read"; input = some "{}" }

abbrev asks_tool : List LlmEvent
asks_tool =
    tool_input_start "c" "Read"
    ∷ tool_input_end "c" "Read"
    ∷ call read_call
    ∷ finished (record { reason = stop; usage = none })
    ∷ []

abbrev answers : List LlmEvent
answers =
    text_start "t" ∷ text_delta "t" "done" ∷ finished (record { reason = stop; usage = none }) ∷ []

-- The first attempt fails, the second asks for a tool, the later ones answer.
abbrev script : ℕ → Reply
script zero = failed (record { reason = network_error; message = "lost"; retryable = true })
script (suc zero) = replied asks_tool
script (suc (suc n)) = replied answers

abbrev host : Host ℕ
host = record {
  stream = λ q w. (script w, w + 1);
  pause = λ delay w. w;
  millis = λ w. w;
  clock = λ w. "now";
  decode_switch = λ j. none;
}

abbrev read : Tool ℕ
read = record {
  name = "Read";
  description = "reads";
  read_only = true;
  record_duration = false;
  decode = λ j. parsed j;
  validate = λ j. parsed j;
  call = λ j s w. (success (some "\"text\""), w);
}

abbrev context : LoopContext ℕ
context = record {
  build_system = λ s. "system";
  llm_tools = [];
  max_iterations = 3;
  resolver = none;
  timed_tools = [];
  registry = ("Read", read) ∷ [];
  store = none;
  host = host;
}

abbrev start : State ℕ
start = record { session = session; world = 0; events = []; sent = [] }

program : Unit {0}
unfolding loop is_validly_paired tool_call_ids tool_result_ids is_marker derive_context call_tool
    from_events insert lookup values record_context_usage resolve_switch record_model_transition
    model_ref_key same_target with_past set_last
program = tt

loop_completes : (loop context 3 0 false start).0 ≡ completed
unfolding program
loop_completes = refl

loop_requests : length (loop context 3 0 false start).1.sent ≡ 3
unfolding program
loop_requests = refl

loop_messages : length (loop context 3 0 false start).1.session.messages ≡ 4
unfolding program
loop_messages = refl

start_paired : is_validly_paired (question ∷ []) ≡ true
unfolding program
start_paired = refl

loop-IsPaired_example :
    let after = (loop context 3 0 false start).1.session.messages in
    (ys : List Message) × (after ≡ (question ∷ []) ++ ys) × (is_validly_paired after ≡ true)
loop-IsPaired_example = loop-IsPaired context 3 0 false start start_paired

loop-sent_example : length (loop context 3 0 false start).1.sent ≤ length start.sent + 5 * 3
loop-sent_example = loop-sent context 3 0 false start

run_turn-sent_example :
    length (run_turn context start).1.sent ≤ length start.sent + 10 * context.max_iterations + 2
run_turn-sent_example = run_turn-sent context start

abbrev response : AssistantMessage
response = record {
  content = AssistantContent.text "I read" ∷ tool_call read_call ∷ [];
  usage = none;
  timing = record { created_at = "t"; response_duration_ms = none; turn_duration_ms = none };
}

abbrev interrupted : Session
interrupted = record session { messages = question ∷ assistant response ∷ [] }

record_interruption-IsPaired_example :
    is_validly_paired (record_interruption "now" none interrupted).messages ≡ true
record_interruption-IsPaired_example =
    record_interruption-IsPaired "now" none interrupted (question ∷ []) response refl start_paired

abbrev switch_call : ToolCall
switch_call = record { tool_call_id = "s"; name = "SwitchModel"; input = some "{}" }

abbrev asks_switch : List LlmEvent
asks_switch =
    tool_input_start "s" "SwitchModel"
    ∷ tool_input_end "s" "SwitchModel"
    ∷ call switch_call
    ∷ finished (record { reason = stop; usage = none })
    ∷ []

-- The first two answers ask for a switch, and the third one ends the turn.
abbrev switching : ℕ → Reply
switching zero = replied asks_switch
switching (suc zero) = replied asks_switch
switching (suc (suc n)) = replied answers

abbrev target : ModelTransition
target = record {
  model = record { id = "n"; provider = "q"; limits = none; warn_on_reasoning_loss = none };
  model_ref = record { provider = "q"; model_id = "n"; variant = none };
  request_options = record { provider_options = none; generation = none };
}

abbrev routed : LoopContext ℕ
routed = record context {
  resolver = some (λ m w. (resolved target, w));
  host = record host {
    stream = λ q w. (switching w, w + 1);
    decode_switch = λ j. some (record { model = "q:n"; reason = "harder" });
  };
}

loop_switched : switches (loop routed 3 0 false start).1.events ≡ 1
unfolding program
loop_switched = refl

loop_model : (loop routed 3 0 false start).1.session.system_context.model.id ≡ "n"
unfolding program
loop_model = refl

loop-switches_example :
    let after = (loop routed 3 0 false start).1 in
    Same start after ⊎ ((false ≡ false) × Once start after)
loop-switches_example = loop-switches routed 3 0 false start

abbrev planning : Session
planning = record session {
  system_context = record (session.system_context) { permission_mode = PermissionMode.plan };
}

abbrev write : Tool ℕ
write = record read { name = "Write"; read_only = false; call = λ j s w. (success none, w + 1) }

abbrev write_call : ToolCall
write_call = record read_call { name = "Write" }

registered : lookup "Write" (("Write", write) ∷ []) ≡ some write
unfolding lookup
registered = refl

call_tool-plan_example :
    ((call_tool (("Write", write) ∷ []) planning write_call 4).1 ≡ 4)
    × ((call_tool (("Write", write) ∷ []) planning write_call 4).0.is_error ≡ some true)
call_tool-plan_example =
    call_tool-plan write planning refl refl (("Write", write) ∷ []) write_call 4 registered
