-- ===== src/Session/Tests.antt =====
-- Runs of the session's transitions, and instances of the theorems.
use swain.Common.{String, true, none, some, [], ◌∷◌, ◌≡◌, refl, if◌then◌else◌}
use swain.Llms.Messages.{ModelRef}
use swain.Session.{
  Session, Model, ModelTransition, RequestOptions, create_session_state, same_target,
  record_model_transition,
}
use swain.Session.Transition.{
  has_target, remembers, AreDistinct, run, run-remembers, current_in_past,
  record_model_transition_lem,
}

abbrev model : String → Model
model id = record { id = id; provider = "p"; limits = none; warn_on_reasoning_loss = none }

abbrev ref : String → ModelRef
ref id = record { provider = "p"; model_id = id; variant = some "" }

abbrev options : RequestOptions
options = record { provider_options = none; generation = none }

abbrev to_model : String → ModelTransition
to_model id = record { model = model id; model_ref = ref id; request_options = options }

abbrev start : Session
unfolding create_session_state
start = create_session_state "u1" (record {
  session_id = none;
  working_directory = "/w";
  model = model "a";
  model_ref = some (ref "a");
  request_options = none;
  past_models = none;
  permission_mode = none;
  current_date = "today";
  messages = none;
  compaction = none;
  tool_results = none;
})

switch_to_b : (record_model_transition start (to_model "b")).0 ≡ some (ref "a")
unfolding record_model_transition start
switch_to_b = refl

run-remembers_example :
    (remembers (run (to_model "b" ∷ to_model "c" ∷ []) start) (ref "a") ≡ true)
    × AreDistinct (run (to_model "b" ∷ to_model "c" ∷ []) start).system_context.past_models
unfolding start same_target
run-remembers_example = run-remembers (to_model "b" ∷ to_model "c" ∷ []) start (ref "a") tt refl

current_in_past_example :
    let after = (run (to_model "b" ∷ to_model "a" ∷ []) start).system_context in
    has_target after.past_models after.model_ref ≡ true
unfolding start same_target
current_in_past_example = current_in_past start (to_model "b") (to_model "a") refl refl

record_model_transition_lem_example :
    let (previous, after) = record_model_transition start (to_model "b") in
    (after.system_context.model ≡ (to_model "b").model)
    × (after.system_context.request_options ≡ (to_model "b").request_options)
    × (if same_target start.system_context.model_ref (ref "b")
        then (previous ≡ none)
          × (after.system_context.model_ref ≡ start.system_context.model_ref)
          × (after.system_context.past_models ≡ start.system_context.past_models)
        else (previous ≡ some start.system_context.model_ref)
          × (after.system_context.model_ref ≡ ref "b")
          × (has_target after.system_context.past_models start.system_context.model_ref ≡ true))
record_model_transition_lem_example = record_model_transition_lem start (to_model "b")
