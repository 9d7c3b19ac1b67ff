-- ===== src/Llms/ToolInput.antt =====
-- packages/llms/src/protocols/tool-input.ts: a streamed tool call, assembled from its deltas.
--
-- `parse` is `JSON.parse`: the JSON text of the value, or none where it throws.
pub mod Laws
pub mod Accepted
mod Tests
use swain.Common.{
  String, Bool, true, false, Option, none, some, List, [], ◌∷◌, ◌++◌, if◌then◌else◌, str_eq, trim,
  take_units, Dict, lookup, insert, remove, values,
}
use swain.Llms.Messages.{◌&◌}
use swain.Llms.Turn.{LlmEvent, tool_input_start, tool_input_delta, tool_input_end, call}
use swain.Llms.Client.{Fallible, yields, fails, invalid_provider_output}

pub record Entry : Type 0 where
  pub tool_call_id : String
  pub name : String
  pub args : String

abbrev pub Assembler : Type 0
Assembler = Dict Entry

abbrev pub is_open : Option Entry → Bool
is_open none = false
is_open (some e) = true

unfoldable pub start : String → String → Assembler → LlmEvent × Assembler
start id name a =
    (tool_input_start id name, insert id (record { tool_call_id = id; name = name; args = "" }) a)

appended : String → String → Option Entry → Assembler → Assembler
appended id s none a = a
appended id s (some e) a = insert id (record e { args = e.args & s }) a

unfoldable pub append : String → String → Assembler → LlmEvent × Assembler
unfolding appended
append id s a = (tool_input_delta id s, appended id s (lookup id a) a)

abbrev pub started : String → Assembler → Bool
started id a = is_open (lookup id a)

module _ (parse : String → Option String) where
  parsed_args : String → String → Option String → Fallible (Option String)
  parsed_args name raw (some input) = yields (some input)
  parsed_args name raw none = fails (record {
    reason = invalid_provider_output;
    message = "tool call \"" & name & "\" arguments are not valid JSON: " & take_units 200 raw;
    retryable = false;
  })

  unfoldable pub parse_args : Entry → Fallible (Option String)
  unfolding parsed_args trim take_units
  parse_args e =
      let raw = trim e.args in
      if str_eq raw "" then yields (some "{}") else parsed_args e.name raw (parse raw)

  call_events : Entry → Fallible (Option String) → Fallible (List LlmEvent)
  call_events e (fails x) = fails x
  call_events e (yields input) = yields (
      tool_input_end e.tool_call_id e.name
      ∷ call (record { tool_call_id = e.tool_call_id; name = e.name; input = input })
      ∷ [])

  unfoldable pub finish_entry : Entry → Fallible (List LlmEvent)
  unfolding call_events parse_args
  finish_entry e = call_events e (parse_args e)

  -- The entry is deleted whether its arguments are valid or not.
  finished_entry : String → Option Entry → Assembler → Fallible (List LlmEvent) × Assembler
  finished_entry id none a = (yields [], a)
  finished_entry id (some e) a = (finish_entry e, remove id a)

  unfoldable pub finish : String → Assembler → Fallible (List LlmEvent) × Assembler
  unfolding finished_entry
  finish id a = finished_entry id (lookup id a) a

  -- The loop of `finishAll`.
  pub finish_entries : List Entry → Fallible (List LlmEvent)
  finish_entries [] = yields []
  finish_entries (e ∷ es) = elim (finish_entry e) [
    | fails x ↦ fails x
    | yields now ↦ elim (finish_entries es) [
      | fails x ↦ fails x
      | yields later ↦ yields (now ++ later)
    ]
  ]

  -- A failure ends the turn, and leaves the entries.
  all_finished : Fallible (List LlmEvent) → Assembler → Fallible (List LlmEvent) × Assembler
  all_finished (fails x) a = (fails x, a)
  all_finished (yields es) a = (yields es, [])

  unfoldable pub finish_all : Assembler → Fallible (List LlmEvent) × Assembler
  unfolding finish_entries all_finished
  finish_all a = all_finished (finish_entries (values a)) a
