-- ===== src/Session.antt =====
-- packages/core/src/state/session.ts: the state of a session and the change of its model.
--
-- The cache of read files and the file locks are left out. A model is what core reads of it; the
-- provider options and generation options, which core only passes on, are kept as JSON texts. A
-- field that the source mutates in place is given anew.
pub mod Transition
mod Tests
use swain.Common.{
  ℕ, String, Bool, true, false, Option, none, some, List, [], ◌∷◌, ◌++◌, if◌then◌else◌, str_eq, any,
}
use swain.Llms.Messages.{Json, Message, ModelRef, ◌&◌}

pub record Limits : Type 0 where
  pub context_window : Option ℕ
  pub max_output_tokens : Option ℕ

pub record Model : Type 0 where
  pub id : String
  pub provider : String
  pub limits : Option Limits
  pub warn_on_reasoning_loss : Option Bool

pub record RequestOptions : Type 0 where
  pub provider_options : Json
  pub generation : Json

pub data PermissionMode : Type 0 where
  plan ask auto_mode : PermissionMode

pub record SystemContext : Type 0 where
  pub model : Model
  pub request_options : RequestOptions
  pub model_ref : ModelRef
  pub past_models : List ModelRef
  pub permission_mode : PermissionMode
  pub current_date : String

pub record SessionCounters : Type 0 where
  pub turns : ℕ
  pub input_tokens : ℕ
  pub output_tokens : ℕ

pub record ContextUsage : Type 0 where
  pub active_context_tokens : ℕ
  pub measured_at_message_index : ℕ

pub record CompactionState : Type 0 where
  pub auto_enabled : Bool
  pub failure_reason : Option String
  pub last_compacted_at : Option String
  pub summary : Option String

pub record ToolResultReplacement : Type 0 where
  pub tool_call_id : String
  pub name : Option String
  pub path : String
  pub original_chars : ℕ
  pub preview_chars : ℕ
  pub created_at : String

pub record Session : Type 0 where
  pub session_id : String
  pub working_directory : String
  pub system_context : SystemContext
  pub messages : List Message
  pub counters : SessionCounters
  pub compaction : CompactionState
  pub tool_results : List ToolResultReplacement
  pub context_usage : Option ContextUsage

-- `provider:modelId[:variant]`; an empty variant is as none.
unfoldable pub model_ref_key : ModelRef → String
model_ref_key ref = elim ref.variant [
  | none ↦ ref.provider & ":" & ref.model_id
  | some v ↦
      if str_eq v ""
      then ref.provider & ":" & ref.model_id
      else ref.provider & ":" & ref.model_id & ":" & v
]

abbrev pub derive_model_ref : Model → ModelRef
derive_model_ref m = record { provider = m.provider; model_id = m.id; variant = none }

pub record CreateSessionInput : Type 0 where
  pub session_id : Option String
  pub working_directory : String
  pub model : Model
  pub model_ref : Option ModelRef
  pub request_options : Option RequestOptions
  pub past_models : Option (List ModelRef)
  pub permission_mode : Option PermissionMode
  pub current_date : String
  pub messages : Option (List Message)
  pub compaction : Option CompactionState
  pub tool_results : Option (List ToolResultReplacement)

abbrev or_default {ℓ} : {A : Type ℓ} → Option A → A → A
or_default none d = d
or_default (some a) d = a

-- `uuid` is what `crypto.randomUUID()` gives.
unfoldable pub create_session_state : (uuid : String) → CreateSessionInput → Session
create_session_state uuid input = record {
  session_id = or_default input.session_id uuid;
  working_directory = input.working_directory;
  system_context = record {
    model = input.model;
    request_options =
        or_default input.request_options (record { provider_options = none; generation = none });
    model_ref = or_default input.model_ref (derive_model_ref input.model);
    past_models = or_default input.past_models [];
    permission_mode = or_default input.permission_mode ask;
    current_date = input.current_date;
  };
  messages = or_default input.messages [];
  counters = record { turns = 0; input_tokens = 0; output_tokens = 0 };
  compaction = or_default input.compaction (record {
    auto_enabled = true;
    failure_reason = none;
    last_compacted_at = none;
    summary = none;
  });
  tool_results = or_default input.tool_results [];
  context_usage = none;
}

pub record ModelTransition : Type 0 where
  pub model : Model
  pub model_ref : ModelRef
  pub request_options : RequestOptions

unfoldable pub same_target : ModelRef → ModelRef → Bool
unfolding model_ref_key
same_target a b = str_eq (model_ref_key a) (model_ref_key b)

unfoldable pub with_past : List ModelRef → ModelRef → List ModelRef
unfolding same_target
with_past past previous =
    if any (λ ref. same_target ref previous) past then past else past ++ previous ∷ []

abbrev pub refreshed : Session → ModelTransition → Session
refreshed s next = record s {
  system_context = record (s.system_context) {
    model = next.model;
    request_options = next.request_options;
  };
}

abbrev pub moved : Session → ModelTransition → Session
moved s next = record s {
  system_context = record (s.system_context) {
    model = next.model;
    request_options = next.request_options;
    model_ref = next.model_ref;
    past_models = with_past s.system_context.past_models s.system_context.model_ref;
  };
}

-- The session with the new target, and the previous one where the target has changed.
unfoldable pub record_model_transition : Session → ModelTransition → Option ModelRef × Session
unfolding with_past
record_model_transition s next =
    if same_target s.system_context.model_ref next.model_ref
    then (none, refreshed s next)
    else (some s.system_context.model_ref, moved s next)
