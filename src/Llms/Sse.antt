-- ===== src/Llms/Sse.antt =====
-- packages/llms/src/transport/sse.ts: the incremental decoder of server-sent events.
pub mod Laws
mod Tests
use Prim.Native.Char.{code}
use Prim.Native.String.{String, [], ◌∷◌}
use mathlib.Core.List
use swain.Common.{
  ℕ, zero, suc, Bool, true, false, not, ◌&&◌, Option, none, some, List, nat_eq, str_eq, trim,
  if◌then◌else◌,
}
use swain.Llms.Messages.{◌&◌}

pub record SseEvent : Type 0 where
  pub event : Option String
  pub data_text : String

-- The event that is being collected.
pub record Fields : Type 0 where
  pub event_name : Option String
  pub data_lines : List String

pub record Decoder : Type 0 where
  pub buffer : String
  pub fields : Fields

abbrev pub no_fields : Fields
no_fields = record { event_name = none; data_lines = List.[] }

abbrev pub make_decoder : Decoder
make_decoder = record { buffer = ""; fields = no_fields }

unfoldable pub join_lines : List String → String
join_lines List.[] = ""
join_lines (List.◌∷◌ s List.[]) = s
join_lines (List.◌∷◌ s (List.◌∷◌ t ls)) = s & "\n" & join_lines (List.◌∷◌ t ls)

unfoldable pub is_done : SseEvent → Bool
unfolding trim
is_done e = str_eq (trim e.data_text) "[DONE]"

unfoldable pub dispatch : Fields → Option SseEvent × Fields
unfolding join_lines
dispatch f = elim f.data_lines [
  | List.[] ↦ (none, record f { event_name = none })
  | List.◌∷◌ l ls ↦
      (some (record { event = f.event_name; data_text = join_lines (List.◌∷◌ l ls) }), no_fields)
]

-- `line.slice(0, colon)` and `line.slice(colon + 1)` at the first colon; without one, the whole line
-- and the empty text.
field_of : String → String
field_of [] = []
field_of (c ∷ s) = if nat_eq (code c) b':' then [] else c ∷ field_of s

value_of : String → String
value_of [] = []
value_of (c ∷ s) = if nat_eq (code c) b':' then s else value_of s

drop_space : String → String
drop_space [] = []
drop_space (c ∷ s) = if nat_eq (code c) b' ' then s else c ∷ s

is_comment : String → Bool
is_comment [] = false
is_comment (c ∷ s) = nat_eq (code c) b':'

take_field : String → String → Fields → Fields
take_field name value f =
    if str_eq name "data"
    then record f { data_lines = List.◌++◌ f.data_lines (List.◌∷◌ value List.[]) }
    else (if str_eq name "event" then record f { event_name = some value } else f)

unfoldable pub consume_line : String → Fields → Option SseEvent × Fields
unfolding dispatch field_of value_of drop_space is_comment take_field
consume_line [] f = dispatch f
consume_line (c ∷ s) f =
    if is_comment (c ∷ s)
    then (none, f)
    else (none, take_field (field_of (c ∷ s)) (drop_space (value_of (c ∷ s))) f)

abbrev pub is_lf : ℕ → Bool
is_lf c = nat_eq c 10

abbrev pub is_cr : ℕ → Bool
is_cr c = nat_eq c 13

drop_lf : String → String
drop_lf [] = []
drop_lf (c ∷ s) = if is_lf (code c) then s else c ∷ s

prefixed : String → Option (String × String) → Option (String × String)
prefixed start none = none
prefixed start (some (line, rest)) = some (start & line, rest)

-- The text before the first match of /\r\n|\r|\n/ and the text behind it.
pub split_line : String → Option (String × String)
unfolding drop_lf prefixed
split_line [] = none
split_line (c ∷ s) =
    if is_lf (code c)
    then some ("", s)
    else (if is_cr (code c) then some ("", drop_lf s) else prefixed (c ∷ []) (split_line s))

unfoldable pub size : String → ℕ
size [] = 0
size (c ∷ s) = suc (size s)

abbrev pub with_event : Option SseEvent → List SseEvent → List SseEvent
with_event none es = es
with_event (some e) es = List.◌∷◌ e es

-- One round of the loop, where `more` is the rest of it.
round :
    (String → Fields → List SseEvent × Decoder)
    → Option (String × String)
    → String
    → Fields
    → List SseEvent × Decoder
round more none buffer f = (List.[], record { buffer = buffer; fields = f })
round more (some (line, rest)) buffer f =
    let (event, f') = consume_line line f in
    let (events, d) = more rest f' in (with_event event events, d)

-- The loop of `feed`. Each round takes a line end off the buffer, so its size is enough fuel.
pub drain : ℕ → String → Fields → List SseEvent × Decoder
unfolding split_line round
drain zero buffer f = (List.[], record { buffer = buffer; fields = f })
drain (suc fuel) buffer f = round (λ b g. drain fuel b g) (split_line buffer) buffer f

unfoldable pub feed : String → Decoder → List SseEvent × Decoder
unfolding drain size
feed chunk d = let buffer = d.buffer & chunk in drain (size buffer) buffer d.fields

-- An unterminated event is discarded.
abbrev pub end : Decoder → List SseEvent × Decoder
end d = (List.[], make_decoder)

ends_with_lf : String → Bool
ends_with_lf [] = false
ends_with_lf (c ∷ []) = is_lf (code c)
ends_with_lf (c ∷ d ∷ s) = ends_with_lf (d ∷ s)

-- A complete document.
unfoldable pub decode : String → List SseEvent
unfolding feed ends_with_lf
decode s = (feed (if ends_with_lf s then s & "\n" else s & "\n\n") make_decoder).0
