-- ===== src/Agent/State.antt =====
-- What the agent's loop of packages/core/src/agent.ts runs on: its context, its state, and the
-- events that it emits.
--
-- `W` is the world outside the session: providers, tools, disk and clocks. A `State` also holds what
-- was emitted and which requests were handed to the client, both in order. The forwarded events of
-- a stream and the progress of a tool are not recorded.
use swain.Common.{ℕ, String, Bool, Option, none, List, [], ◌∷◌, ◌++◌, Dict, ◌≡◌}
use swain.Llms.Messages.{
  Json, ToolResult, Usage, UserContent, AssistantContent, Message, user, assistant,
}
use swain.Llms.Turn.{FinishReason}
use swain.Llms.Client.{LlmError, LlmTool, Request, Reply}
use swain.Session.{Session, ModelTransition, ToolResultReplacement}
use swain.Llms.Messages.{ModelRef}
use swain.Agent.Tools.{Tool}

pub data Source : Type 0 where
  from_llm from_agent : Source

pub data AgentEvent : Type 0 where
  step_start : (iteration : ℕ) → AgentEvent
  step_end : (iteration : ℕ) → FinishReason → Option Usage → AgentEvent
  tool_execution_start : (name tool_call_id : String) → (input : Json) → AgentEvent
  tool_execution_end : (name tool_call_id : String) → (is_error : Bool) → AgentEvent
  agent_error : Source → (message : String) → (recoverable : Bool) → AgentEvent
  compaction_warning : (message : String) → AgentEvent
  model_switch : (to : ModelRef) → AgentEvent

-- How a turn ends: normally, with the `AgentError` of too many iterations, or with an `LLMError`.
pub data Exit : Type 0 where
  completed : Exit
  max_iterations_error : (message : String) → Exit
  llm_failure : LlmError → Exit

pub record SwitchModelInput : Type 0 where
  pub model : String
  pub reason : String

-- `ModelResolver.resolve`: a live model, or the error's message.
pub data Resolved : Type 0 where
  resolved : ModelTransition → Resolved
  unresolved : (message : String) → Resolved

-- The interface of `ToolResultStoreService`: a result, and the list of replacements that the session
-- holds. Whatever it does, the result answers the same call.
pub record ToolResultStore (W : Type 0) : Type 0 where
  pub persist :
      List ToolResultReplacement → ToolResult → W → (ToolResult × List ToolResultReplacement) × W
  pub same_call :
      (rs : List ToolResultReplacement) (r : ToolResult) (w : W)
      → (persist rs r w).0.0.tool_call_id ≡ r.tool_call_id

-- One attempt at a stream with its watchdogs, a pause of some milliseconds, the two clocks, and the
-- decoding of the input of `SwitchModel`.
pub record Host (W : Type 0) : Type 0 where
  pub stream : Request → W → Reply × W
  pub pause : ℕ → W → W
  pub millis : W → ℕ
  pub clock : W → String
  pub decode_switch : Json → Option SwitchModelInput

-- `LoopContext`, with the services that the loop finds in its environment.
pub record LoopContext (W : Type 0) : Type 0 where
  pub build_system : Session → String
  pub llm_tools : List LlmTool
  pub max_iterations : ℕ
  pub resolver : Option (String → W → Resolved × W)
  pub timed_tools : List String
  pub registry : Dict (Tool W)
  pub store : Option (ToolResultStore W)
  pub host : Host W

pub record State (W : Type 0) : Type 0 where
  pub session : Session
  pub world : W
  pub events : List AgentEvent
  pub sent : List Request

abbrev pub emit : {W : Type 0} → AgentEvent → State W → State W
emit e st = record st { events = st.events ++ e ∷ [] }

-- `session.messages.push(message)`
abbrev pub push : Message → Session → Session
push m s = record s { messages = s.messages ++ m ∷ [] }

abbrev pub push_to : {W : Type 0} → Message → State W → State W
push_to m st = record st { session = push m st.session }

-- `session.messages[session.messages.length - 1] = message`
unfoldable pub set_last : Message → List Message → List Message
set_last m [] = []
set_last m (x ∷ []) = m ∷ []
set_last m (x ∷ y ∷ xs) = x ∷ set_last m (y ∷ xs)

-- `userMessage(content, { isMeta, createdAt, responseDurationMs })`
abbrev pub user_message : List UserContent → Bool → String → Option ℕ → Message
user_message content is_meta created elapsed = user (record {
  content = content;
  is_meta = is_meta;
  timing = record { created_at = created; response_duration_ms = elapsed; turn_duration_ms = none };
})

abbrev pub assistant_message : List AssistantContent → String → Option ℕ → Option Usage → Message
assistant_message content created elapsed usage = assistant (record {
  content = content;
  usage = usage;
  timing = record { created_at = created; response_duration_ms = elapsed; turn_duration_ms = none };
})
