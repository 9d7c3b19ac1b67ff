-- ===== src/Agent/Loop/Switching.antt =====
-- What a run of the loop may have done to the model: nothing, or one switch.
use swain.Common.{
  ℕ, suc, ◌+◌, List, [], ◌∷◌, ◌++◌, ◌≡◌, refl, ◌∙◌, ap, sym, if◌then◌else◌, arith, Bool-cases, inl,
  inr,
}
use swain.Session.{
  Session, SystemContext, ModelTransition, same_target, with_past, record_model_transition,
}
use swain.Agent.State.{
  AgentEvent, step_start, step_end, tool_execution_start, tool_execution_end, agent_error,
  compaction_warning, model_switch, State,
}

-- The switches among events.
abbrev pub switches : List AgentEvent → ℕ
switches [] = 0
switches (model_switch to ∷ es) = suc (switches es)
switches (step_start i ∷ es) = switches es
switches (step_end i r u ∷ es) = switches es
switches (tool_execution_start n c i ∷ es) = switches es
switches (tool_execution_end n c b ∷ es) = switches es
switches (agent_error s m b ∷ es) = switches es
switches (compaction_warning m ∷ es) = switches es

pub switches-append : (es fs : List AgentEvent) → switches (es ++ fs) ≡ switches es + switches fs
switches-append [] fs = omega arith
switches-append (model_switch to ∷ es) fs = omega (arith, switches-append es fs)
switches-append (step_start i ∷ es) fs = switches-append es fs
switches-append (step_end i r u ∷ es) fs = switches-append es fs
switches-append (tool_execution_start n c i ∷ es) fs = switches-append es fs
switches-append (tool_execution_end n c b ∷ es) fs = switches-append es fs
switches-append (agent_error s m b ∷ es) fs = switches-append es fs
switches-append (compaction_warning m ∷ es) fs = switches-append es fs

-- What a transition makes of the model depends on the model alone.
abbrev moved_to : SystemContext → ModelTransition → SystemContext
moved_to c t =
    if same_target c.model_ref t.model_ref
    then record c { model = t.model; request_options = t.request_options }
    else record c {
      model = t.model;
      request_options = t.request_options;
      model_ref = t.model_ref;
      past_models = with_past c.past_models c.model_ref;
    }

record_model_transition-moved :
    (s : Session) (t : ModelTransition)
    → (record_model_transition s t).1.system_context ≡ moved_to s.system_context t
unfolding record_model_transition
record_model_transition-moved s t =
    elim (Bool-cases (same_target s.system_context.model_ref t.model_ref)) [
      | inl e ↦ rw e refl
      | inr e ↦ rw e refl
    ]

-- The model and the switches among the events are as they were.
pub record Same {W : Type 0} (st st' : State W) : Type 0 where
  pub model : st'.session.system_context ≡ st.session.system_context
  pub emits : switches st'.events ≡ switches st.events

-- The model is that of one transition, and there is one switch more among the events.
pub record Once {W : Type 0} (st st' : State W) : Type 0 where
  pub target : ModelTransition
  pub model :
      st'.session.system_context ≡ (record_model_transition st.session target).1.system_context
  pub emits : switches st'.events ≡ suc (switches st.events)

module _ {W : Type 0} {a b c : State W} where
  pub Same-trans : Same a b → Same b c → Same a c
  Same-trans h k = record { model = k.model ∙ h.model; emits = k.emits ∙ h.emits }

  pub Once-Same : Once a b → Same b c → Once a c
  Once-Same h k = record { target = h.target; model = k.model ∙ h.model; emits = k.emits ∙ h.emits }

  pub Same-Once : Same a b → Once b c → Once a c
  Same-Once h k = record {
    target = k.target;
    model =
        k.model
        ∙ record_model_transition-moved b.session k.target
        ∙ ap (λ x. moved_to x k.target) h.model
        ∙ sym (record_model_transition-moved a.session k.target);
    emits = k.emits ∙ ap suc h.emits;
  }
