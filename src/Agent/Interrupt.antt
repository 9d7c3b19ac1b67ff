-- ===== src/Agent/Interrupt.antt =====
-- `recordInterruption` of packages/core/src/agent.ts: an interrupted turn is closed, so that every
-- tool call that never ran has an answer.
pub mod Laws
use swain.Common.{
  String, false, Option, none, some, List, [], ◌∷◌, map, trim, str_eq, if◌then◌else◌, get_last?,
}
use swain.Llms.Messages.{
  ToolCall, UserContent, tool_result, AssistantContent, text, tool_call, Message, user, assistant,
  ◌&◌,
}
use swain.Session.{Session}
use swain.Agent.Tools.{error_result}
use swain.Agent.State.{push, user_message, assistant_message}

abbrev pub interrupt_message : String
interrupt_message = "[Request interrupted by user]"

abbrev pub interrupt_message_for_tool_use : String
interrupt_message_for_tool_use = "[Request interrupted by user for tool use]"

pub calls_among : List AssistantContent → List ToolCall
calls_among [] = []
calls_among (tool_call c ∷ bs) = c ∷ calls_among bs
calls_among (_ ∷ bs) = calls_among bs

pub pending_calls : Option Message → List ToolCall
unfolding calls_among
pending_calls none = []
pending_calls (some (user m)) = []
pending_calls (some (assistant m)) = calls_among m.content

-- An absent or blank partial text leaves only the marker.
interrupt_text : Option String → String
interrupt_text none = interrupt_message
interrupt_text (some partial) =
    if str_eq (trim partial) ""
    then interrupt_message
    else trim partial & "\n\n" & interrupt_message

abbrev pub interrupted_results : List ToolCall → List UserContent
interrupted_results calls =
    map (λ c. tool_result (error_result c interrupt_message_for_tool_use)) calls

abbrev pub note : String → String → Message
note clock s = assistant_message (text s ∷ []) clock none none

pub interrupt : String → Option String → List ToolCall → Session → Session
unfolding interrupt_text
interrupt clock partial [] s = push (note clock (interrupt_text partial)) s
interrupt clock partial (c ∷ calls) s =
    push (note clock interrupt_message)
      (push (user_message (interrupted_results (c ∷ calls)) false clock none) s)

unfoldable pub record_interruption : String → Option String → Session → Session
unfolding interrupt pending_calls
record_interruption clock partial s =
    interrupt clock partial (pending_calls (get_last? s.messages)) s
