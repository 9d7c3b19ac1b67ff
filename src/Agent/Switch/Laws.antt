-- ===== src/Agent/Switch/Laws.antt =====
-- What a resolved switch leaves alone.
use swain.Common.{Bool, true, false, ◌≡◌, refl, str_eq, Bool-cases, Option-cases, inl, inr, []}
use swain.Llms.Messages.{ToolCall, Message}
use swain.Context.Pairing.{tool_call_ids, tool_result_ids}
use swain.Session.{Session, ModelTransition, model_ref_key, same_target, record_model_transition}
use swain.Agent.State.{SwitchModelInput, Resolved, resolved, unresolved, LoopContext, State}
use swain.Agent.Switch.{
  SwitchOutcome, switched, noop, error, apply_switch, resolve_target, resolve_switch,
}

record_model_transition-messages :
    (s : Session) (t : ModelTransition) → (record_model_transition s t).1.messages ≡ s.messages
unfolding record_model_transition
record_model_transition-messages s t =
    elim (Bool-cases (same_target s.system_context.model_ref t.model_ref)) [
      | inl e ↦ rw e refl
      | inr e ↦ rw e refl
    ]

-- A message without calls and without results.
abbrev pub IsPlain : Message → Type 0
IsPlain m = (tool_call_ids m ≡ []) × (tool_result_ids m ≡ [])

-- A switch is carried out once in a turn, and its message is plain.
abbrev pub IsFirst : Bool → SwitchOutcome → Type 0
IsFirst already (switched m) = (already ≡ false) × IsPlain m
IsFirst already (noop m) = Unit
IsFirst already (error m) = Unit

module _ {W : Type 0} (ctx : LoopContext W) where
  abbrev pub Keeps : Bool → State W → SwitchOutcome × State W → Type 0
  Keeps already st r =
      (r.1.session.messages ≡ st.session.messages)
      × (r.1.sent ≡ st.sent)
      × (r.1.events ≡ st.events)
      × IsFirst already r.0

  apply_switch-Keeps :
      (input : SwitchModelInput) (target : Resolved) (st : State W)
      → Keeps false st (apply_switch ctx input target st)
  unfolding apply_switch tool_call_ids tool_result_ids
  apply_switch-Keeps input (unresolved m) st = (refl, refl, refl, tt)
  apply_switch-Keeps input (resolved t) st =
      (record_model_transition-messages st.session t, refl, refl, (refl, (refl, refl)))

  resolve_target-Keeps :
      (input : SwitchModelInput) (st : State W) → Keeps false st (resolve_target ctx input st)
  unfolding resolve_target
  resolve_target-Keeps input st =
      elim (Bool-cases (str_eq input.model (model_ref_key st.session.system_context.model_ref))) [
        | inl e ↦ rw e (refl, refl, refl, tt)
        | inr e ↦ rw e (elim (Option-cases ctx.resolver) [
          | inl f ↦ rw f (refl, refl, refl, tt)
          | inr (resolve, f) ↦ rw f (apply_switch-Keeps input _ _)
        ])
      ]

  pub resolve_switch-Keeps :
      (c : ToolCall) (already : Bool) (st : State W)
      → Keeps already st (resolve_switch ctx c already st)
  unfolding resolve_switch
  resolve_switch-Keeps c true st = (refl, refl, refl, tt)
  resolve_switch-Keeps c false st = elim (Option-cases (ctx.host.decode_switch c.input)) [
    | inl e ↦ rw e (refl, refl, refl, tt)
    | inr (input, e) ↦ rw e (resolve_target-Keeps input st)
  ]

  -- The model of the session is that of one transition if the switch is carried out, and as it was
  -- if it is not.
  abbrev pub Moves : State W → SwitchOutcome × State W → Type 0
  Moves st (switched m, st') =
      (t : ModelTransition) × (st'.session.system_context
        ≡ (record_model_transition st.session t).1.system_context)
  Moves st (noop m, st') = st'.session.system_context ≡ st.session.system_context
  Moves st (error m, st') = st'.session.system_context ≡ st.session.system_context

  apply_switch-Moves :
      (input : SwitchModelInput) (target : Resolved) (w : W) (st : State W)
      → Moves st (apply_switch ctx input target (record st { world = w }))
  unfolding apply_switch
  apply_switch-Moves input (unresolved m) w st = refl
  apply_switch-Moves input (resolved t) w st = (t, refl)

  resolve_target-Moves :
      (input : SwitchModelInput) (st : State W) → Moves st (resolve_target ctx input st)
  unfolding resolve_target
  resolve_target-Moves input st =
      elim (Bool-cases (str_eq input.model (model_ref_key st.session.system_context.model_ref))) [
        | inl e ↦ rw e refl
        | inr e ↦ rw e (elim (Option-cases ctx.resolver) [
          | inl f ↦ rw f refl
          | inr (resolve, f) ↦ rw f (apply_switch-Moves input _ _ st)
        ])
      ]

  pub resolve_switch-Moves :
      (c : ToolCall) (already : Bool) (st : State W) → Moves st (resolve_switch ctx c already st)
  unfolding resolve_switch
  resolve_switch-Moves c true st = refl
  resolve_switch-Moves c false st = elim (Option-cases (ctx.host.decode_switch c.input)) [
    | inl e ↦ rw e refl
    | inr (input, e) ↦ rw e (resolve_target-Moves input st)
  ]
