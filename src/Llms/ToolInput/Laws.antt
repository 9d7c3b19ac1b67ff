-- ===== src/Llms/ToolInput/Laws.antt =====
-- A call is assembled from its own deltas, whatever comes between them.
use text.Mathlib.TextLemmas as T
use swain.Common.{
  String, false, Option, some, List, [], ◌∷◌, ◌≡◌, refl, arith, ap, ◌∙◌, sym, inl, inr, Bool-cases,
  if◌then◌else◌, str_eq, lookup, insert, lookup-insert, eq_refl, eq_iff, Option-cases,
}
use swain.Llms.Messages.{◌&◌}
use swain.Llms.ToolInput.{
  Entry, Assembler, start, append, appended, finish, finish_entry, finished_entry,
}

-- The deltas of several calls, in the order in which they arrive, and those of one call, joined.
abbrev pub append_all : List (String × String) → Assembler → Assembler
append_all [] a = a
append_all ((id, delta) ∷ ds) a = append_all ds (append id delta a).1

abbrev pub deltas_of : String → List (String × String) → String
deltas_of id [] = ""
deltas_of id ((other, delta) ∷ ds) =
    if str_eq other id then delta & deltas_of id ds else deltas_of id ds

lookup-append_same :
    (id delta : String) (a : Assembler) (e : Entry)
    → lookup id a ≡ some e
    → lookup id (append id delta a).1 ≡ some (record e { args = e.args & delta })
unfolding append appended
lookup-append_same id delta a e h =
    rw h (lookup-insert id id (record e { args = e.args & delta }) a ∙ rw (eq_refl id) refl)

lookup-append_other :
    (id other delta : String) (a : Assembler)
    → str_eq other id ≡ false
    → lookup id (append other delta a).1 ≡ lookup id a
unfolding append appended
lookup-append_other id other delta a h = elim (Option-cases (lookup other a)) [
  | inl e ↦ rw e refl
  | inr (o, e) ↦ rw e (lookup-insert other id (record o { args = o.args & delta }) a ∙ rw h refl)
]

lookup-append_all :
    (id : String) (ds : List (String × String)) (a : Assembler) (e : Entry)
    → lookup id a ≡ some e
    → lookup id (append_all ds a) ≡ some (record e { args = e.args & deltas_of id ds })
lookup-append_all id [] a e h =
    h ∙ ap (λ s. some (record e { args = s })) (sym (T.append-nil e.args))
lookup-append_all id ((other, delta) ∷ ds) a e h = elim (Bool-cases (str_eq other id)) [
  | inl same ↦
      let mine = lookup-append_same id delta a e h in
      let now : lookup id (append other delta a).1 ≡ some (record e { args = e.args & delta }) =
        ground (arith, mine, eq_iff other id) in
      rw same (
        lookup-append_all id ds (append other delta a).1 (record e { args = e.args & delta }) now
        ∙ ap (λ s. some (record e { args = s })) (T.append_assoc e.args delta (deltas_of id ds)))
  | inr not_mine ↦ rw not_mine (
      lookup-append_all id ds (append other delta a).1 e
        (lookup-append_other id other delta a not_mine ∙ h))
]

-- A call that is started and finished has for its arguments what parsing its own deltas joined in
-- order gives, whatever deltas of other calls stand between them, or fails as that parse does.
pub finish_assembled :
    (parse : String → Option String) (id name : String) (ds : List (String × String))
    (a : Assembler)
    → (finish parse id (append_all ds (start id name a).1)).0
      ≡ finish_entry parse (record { tool_call_id = id; name = name; args = deltas_of id ds })
unfolding finish finished_entry start
finish_assembled parse id name ds a =
    let e : Entry = record { tool_call_id = id; name = name; args = "" } in
    let here : lookup id (insert id e a) ≡ some e =
      lookup-insert id id e a ∙ rw (eq_refl id) refl in
    rw (lookup-append_all id ds (insert id e a) e here, T.nil-append (deltas_of id ds)) refl
