-- ===== src/Context/Pairing/Laws.antt =====
-- Pairing of a tail, and of a transcript that grows at its end.
use swain.Common.{
  String, none, ◌++◌, refl, sym, ◌∙◌, eq_refl, ℕ, zero, suc, true, Option, some, List, [], ◌∷◌, ◌≡◌,
  arith, get_elem?, drop,
}
use swain.Llms.Messages.{UserMessage, AssistantMessage, Message, user, assistant}
use swain.Context.Pairing.{
  tool_call_ids, has_id, includes, calls_answered, results_asked, first, tool_result_ids,
  is_assistant, paired_from,
}

-- An assistant's message starts a paired transcript, whatever stands before it.
paired_from-assistant :
    (a b : Option Message) (m : Message) (ms : List Message)
    → is_assistant m ≡ true
    → paired_from a (m ∷ ms) ≡ true
    → paired_from b (m ∷ ms) ≡ true
unfolding paired_from tool_result_ids
paired_from-assistant a b (user m) ms i h = cc
paired_from-assistant a b (assistant m) ms i h = ground arith

paired_from-tail :
    (a : Option Message) (m : Message) (ms : List Message)
    → paired_from a (m ∷ ms) ≡ true
    → paired_from (some m) ms ≡ true
unfolding paired_from
paired_from-tail a m ms h = ground arith

-- The part of a paired transcript from an assistant's message on is paired.
pub paired_from-drop :
    (a b : Option Message) (n : ℕ) (l : List Message) (m : Message)
    → get_elem? l n ≡ some m
    → is_assistant m ≡ true
    → paired_from a l ≡ true
    → paired_from b (drop n l) ≡ true
paired_from-drop a b n [] m e i h = cc
paired_from-drop a b zero (x ∷ l) m e i h =
    paired_from-assistant a b x l (let same : x ≡ m = ground arith in rw same i) h
paired_from-drop a b (suc n) (x ∷ l) m e i h =
    paired_from-drop (some x) b n l m e i (paired_from-tail a x l h)

-- A list of messages that is paired wherever it stands.
abbrev pub IsClosed : List Message → Type 0
IsClosed ms = (before : Option Message) → paired_from before ms ≡ true

calls_answered-none :
    (ids : List String) (next : Option Message)
    → calls_answered ids none ≡ true
    → calls_answered ids next ≡ true
unfolding calls_answered
calls_answered-none [] next h = refl
calls_answered-none (id ∷ ids) next h = cc

-- A paired transcript grows by closed messages: its last message waits for no answer.
pub paired_from-append :
    (a : Option Message) (xs ys : List Message)
    → paired_from a xs ≡ true
    → IsClosed ys
    → paired_from a (xs ++ ys) ≡ true
unfolding paired_from
paired_from-append a [] ys h c = c a
paired_from-append a (x ∷ []) ys h c =
    ground (arith, c (some x), calls_answered-none (tool_call_ids x) (first ys))
paired_from-append a (x ∷ y ∷ xs) ys h c = ground (arith, paired_from-append (some x) (y ∷ xs) ys)

pub IsClosed-append : (xs ys : List Message) → IsClosed xs → IsClosed ys → IsClosed (xs ++ ys)
IsClosed-append xs ys h c a = paired_from-append a xs ys (h a) c

includes-All :
    (ks ls : List String)
    → ((id : String) → has_id ks id ≡ true → has_id ls id ≡ true)
    → includes ls ks ≡ true
includes-All [] ls h = refl
includes-All (k ∷ ks) ls h =
    ground (arith, h k, eq_refl k, includes-All ks ls (λ id e. h id (ground arith)))

calls_answered-includes :
    (ids : List String) (u : UserMessage)
    → includes (tool_result_ids (user u)) ids ≡ true
    → calls_answered ids (some (user u)) ≡ true
unfolding calls_answered
calls_answered-includes [] u h = refl
calls_answered-includes (id ∷ ids) u h = h

results_asked-includes :
    (ids : List String) (a : AssistantMessage)
    → includes (tool_call_ids (assistant a)) ids ≡ true
    → results_asked ids (some (assistant a)) ≡ true
unfolding results_asked
results_asked-includes [] a h = refl
results_asked-includes (id ∷ ids) a h = h

-- A response and its results are closed where their ids are the same.
pub response-IsClosed :
    (a : AssistantMessage) (u : UserMessage)
    → ((id : String)
        → has_id (tool_call_ids (assistant a)) id ≡ has_id (tool_result_ids (user u)) id)
    → IsClosed (assistant a ∷ user u ∷ [])
unfolding paired_from tool_call_ids tool_result_ids calls_answered results_asked
response-IsClosed a u same before =
    let calls = tool_call_ids (assistant a) in
    let results = tool_result_ids (user u) in
    let answered =
      calls_answered-includes calls u (includes-All calls results (λ id h. sym (same id) ∙ h)) in
    let asked =
      results_asked-includes results a (includes-All results calls (λ id h. same id ∙ h)) in
    rw (answered, asked) refl

-- So is a message with neither calls nor results.
pub plain-IsClosed :
    (m : Message) → tool_call_ids m ≡ [] → tool_result_ids m ≡ [] → IsClosed (m ∷ [])
unfolding paired_from calls_answered results_asked
plain-IsClosed m calls results before = rw (calls, results) refl
