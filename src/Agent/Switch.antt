-- ===== src/Agent/Switch.antt =====
-- `resolveSwitch` of packages/core/src/agent.ts: what a call of `SwitchModel` comes to.
pub mod Laws
use swain.Common.{
  String, Bool, true, false, Option, none, some, List, [], ◌∷◌, str_eq, if◌then◌else◌, get_last?, ℕ,
}
use swain.Llms.Messages.{ToolCall, ModelRef, router, Timing, UserContent, Message, user, assistant}
use swain.Session.{Session, ModelTransition, model_ref_key, record_model_transition}
use swain.Agent.State.{
  SwitchModelInput, Resolved, resolved, unresolved, LoopContext, State, user_message,
}

abbrev pub switch_model_name : String
switch_model_name = "SwitchModel"

pub data SwitchOutcome : Type 0 where
  switched : (meta : Message) → SwitchOutcome
  noop : (model : String) → SwitchOutcome
  error : (message : String) → SwitchOutcome

abbrev timing_of : Message → Timing
timing_of (user m) = m.timing
timing_of (assistant m) = m.timing

abbrev created_of : String → Option Message → String
created_of clock none = clock
created_of clock (some m) = (timing_of m).created_at

abbrev elapsed_of : Option Message → Option ℕ
elapsed_of none = none
elapsed_of (some m) = (timing_of m).response_duration_ms

abbrev previous_or : Option ModelRef → ModelRef → ModelRef
previous_or none from = from
previous_or (some previous) from = previous

-- The meta message takes the time and the duration of the message that it replaces.
abbrev pub switch_message : String → ModelRef → ModelRef → String → Option Message → Message
switch_message clock from to reason replaced =
    user_message
      (UserContent.model_switch
          (record { from = from; to = to; reason = reason; requested_by = router })
        ∷ [])
      true (created_of clock replaced) (elapsed_of replaced)

module _ {W : Type 0} (ctx : LoopContext W) where
  apply_switch : SwitchModelInput → Resolved → State W → SwitchOutcome × State W
  apply_switch input (unresolved message) st = (error message, st)
  apply_switch input (resolved target) st =
      let from = st.session.system_context.model_ref in
      let (previous, s) = record_model_transition st.session target in
      (
        switched (
            switch_message (ctx.host.clock st.world) (previous_or previous from) target.model_ref
              input.reason (get_last? s.messages)),
        record st { session = s },
      )

  resolve_target : SwitchModelInput → State W → SwitchOutcome × State W
  unfolding apply_switch
  resolve_target input st =
      if str_eq input.model (model_ref_key st.session.system_context.model_ref)
      then (noop input.model, st)
      else (elim ctx.resolver [
        | none ↦ (error "Model routing is unavailable in this session.", st)
        | some resolve ↦
            let (target, w) = resolve input.model st.world in
            apply_switch input target (record st { world = w })
      ])

  unfoldable pub resolve_switch : ToolCall → Bool → State W → SwitchOutcome × State W
  unfolding resolve_target
  resolve_switch c already_switched st =
      if already_switched
      then (
        error "A model switch already happened this turn; only one is allowed per user turn.",
        st,
      )
      else (elim (ctx.host.decode_switch c.input) [
        | none ↦ (error "SwitchModel requires a target `model` id and a `reason`.", st)
        | some input ↦ resolve_target input st
      ])
