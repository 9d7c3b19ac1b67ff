-- ===== src/Agent/Interrupt/Laws.antt =====
-- An interruption leaves a transcript that can be sent.
use swain.Common.{
  String, true, false, Option, none, some, List, [], ◌∷◌, ◌++◌, ◌≡◌, refl, sym, ◌∙◌, ap, subst, map,
  append_assoc, get_last?, get_last?-snoc,
}
use swain.Llms.Messages.{
  ToolCall, UserMessage, AssistantContent, text, reasoning, tool_call, AssistantMessage, Message,
  user, assistant,
}
use swain.Session.{Session}
use swain.Context.Pairing.{tool_call_ids, tool_result_ids, has_id, is_validly_paired}
use swain.Context.Pairing.Laws.{
  IsClosed, IsClosed-append, response-IsClosed, plain-IsClosed, paired_from-append,
}
use swain.Agent.Interrupt.{
  interrupt_message, calls_among, pending_calls, interrupt_text, interrupted_results, note,
  interrupt, record_interruption,
}

abbrev ids : List ToolCall → List String
ids cs = map (λ c. c.tool_call_id) cs

tool_call_ids-calls_among :
    (m : AssistantMessage) (bs : List AssistantContent)
    → tool_call_ids (assistant (record m { content = bs })) ≡ ids (calls_among bs)
unfolding tool_call_ids calls_among
tool_call_ids-calls_among m [] = refl
tool_call_ids-calls_among m (text s ∷ bs) = tool_call_ids-calls_among m bs
tool_call_ids-calls_among m (reasoning s ∷ bs) = tool_call_ids-calls_among m bs
tool_call_ids-calls_among m (tool_call c ∷ bs) =
    ap (λ l. c.tool_call_id ∷ l) (tool_call_ids-calls_among m bs)

tool_result_ids-interrupted :
    (m : UserMessage) (cs : List ToolCall)
    → tool_result_ids (user (record m { content = interrupted_results cs })) ≡ ids cs
unfolding tool_result_ids
tool_result_ids-interrupted m [] = refl
tool_result_ids-interrupted m (c ∷ cs) =
    ap (λ l. c.tool_call_id ∷ l) (tool_result_ids-interrupted m cs)

note-IsClosed : (clock s : String) → IsClosed (note clock s ∷ [])
unfolding tool_call_ids tool_result_ids
note-IsClosed clock s = plain-IsClosed (note clock s) refl refl

interrupt-IsPaired :
    (clock : String) (partial : Option String) (calls : List ToolCall) (s : Session)
    (before : List Message) (am : AssistantMessage)
    → s.messages ≡ before ++ assistant am ∷ []
    → tool_call_ids (assistant am) ≡ ids calls
    → is_validly_paired before ≡ true
    → is_validly_paired (interrupt clock partial calls s).messages ≡ true
unfolding interrupt is_validly_paired tool_result_ids
interrupt-IsPaired clock partial [] s before am e same h =
    let closed =
      IsClosed-append (assistant am ∷ []) (note clock (interrupt_text partial) ∷ [])
        (plain-IsClosed (assistant am) same refl) (note-IsClosed clock (interrupt_text partial)) in
    let grown =
      ap (λ l. l ++ note clock (interrupt_text partial) ∷ []) e
      ∙ append_assoc before (assistant am ∷ []) (note clock (interrupt_text partial) ∷ []) in
    rw grown (paired_from-append none before _ h closed)
interrupt-IsPaired clock partial (c ∷ cs) s before am e same h =
    let u : UserMessage = record {
      content = interrupted_results (c ∷ cs);
      is_meta = false;
      timing = record { created_at = clock; response_duration_ms = none; turn_duration_ms = none };
    } in
    let there : tool_result_ids (user u) ≡ ids (c ∷ cs) = tool_result_ids-interrupted u (c ∷ cs) in
    let last = note clock interrupt_message in
    let closed =
      IsClosed-append (assistant am ∷ user u ∷ []) (last ∷ [])
        (response-IsClosed am u (λ id. ap (λ l. has_id l id) (same ∙ sym there)))
        (note-IsClosed clock interrupt_message) in
    let grown =
      ap (λ l. (l ++ user u ∷ []) ++ last ∷ []) e
      ∙ ap (λ l. l ++ last ∷ []) (append_assoc before (assistant am ∷ []) (user u ∷ []))
      ∙ append_assoc before (assistant am ∷ user u ∷ []) (last ∷ []) in
    rw grown (paired_from-append none before _ h closed)

-- An interruption just behind a response, before any of its tool calls ran, answers each of them, so
-- that the transcript is validly paired where it was up to the response.
pub record_interruption-IsPaired :
    (clock : String) (partial : Option String) (s : Session) (before : List Message)
    (am : AssistantMessage)
    → s.messages ≡ before ++ assistant am ∷ []
    → is_validly_paired before ≡ true
    → is_validly_paired (record_interruption clock partial s).messages ≡ true
unfolding record_interruption pending_calls
record_interruption-IsPaired clock partial s before am e h =
    let found : get_last? s.messages ≡ some (assistant am) =
      ap get_last? e ∙ get_last?-snoc before (assistant am) in
    subst (λ o. is_validly_paired (interrupt clock partial (pending_calls o) s).messages ≡ true)
      (sym found)
      (interrupt-IsPaired clock partial (calls_among am.content) s before am e
        (tool_call_ids-calls_among am am.content) h)
