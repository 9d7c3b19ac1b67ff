-- ===== src/Tasks/Tests.antt =====
-- Runs of packages/core/src/tasks.ts on small graphs, and instances of the theorems.
use mathlib.Core.List.{Memᴰ}
use swain.Common.{
  String, Option, Dict, ◌++◌, if◌then◌else◌, str_eq, true, false, none, some, List, [], ◌∷◌, ◌≡◌,
  refl, arith, eq_iff, ◌↔◌, lookup, insert, values, map, ap, ◌⊎◌, ◌≢◌,
}
use swain.Tasks.Run.{claim, settle, mark, reset, run, step}
use swain.Tasks.{
  Task, explore, Store, Env, err, blocked, already_owned, platform_error, ClaimTaskInput,
  CreateTaskInput, FinishTaskInput, done, claimed, finished, in_progress, pending, claim_task,
  created, finish, reset_dangling_tasks, load_task_store, loaded, Field, text, number, texts,
  other_value, task_fields, pending_parent_notifications, mark_parent_notified,
}
use swain.Tasks.WellFormed.{IsIndexed, run-IsIndexed}
use swain.Tasks.Codec.{defined}
use swain.Tasks.Restart.{IsSaved, Parses, load_task_store-run}
use swain.Llms.Messages.{◌&◌, decimal}
use swain.Tasks.Claim.{granted, AreCompleted, claim_task-granted_iff, claim_task_refused}
use swain.Tasks.Unwritten.{claim_task_unwritten}
use swain.Tasks.Ownership.{claim_once}
use swain.Tasks.Finish.{IsFinished, lookup-finish, finish-awaits_parent}
use swain.Tasks.Notify.{pending-mark_parent_notified}
use swain.Tasks.Dangling.{lookup-reset_dangling_tasks}

-- `JSON.stringify` for texts that need no escape.
quoted : String → String
quoted s = "\"" & s & "\""

commas : List String → String
commas [] = ""
commas (s ∷ []) = s
commas (s ∷ t ∷ ss) = s & "," & commas (t ∷ ss)

show_field : Field → String
unfolding quoted commas
show_field (text s) = quoted s
show_field (number n) = decimal n
show_field (texts ss) = "[" & commas (map quoted ss) & "]"
show_field other_value = "null"

show_object : Dict Field → String
unfolding show_field
show_object m = "{" & commas (map (λ e. quoted e.0 & ":" & show_field e.1) m) & "}"

stringify : List (Dict (Option Field)) → String
unfolding show_object
stringify ms = "[" & commas (map (λ m. show_object (defined m)) ms) & "]"

abbrev env : Env
env = record { uuid = "u9"; now = "t9"; written = true; stringify = stringify }

abbrev offline : Env
offline = record { uuid = "u9"; now = "t9"; written = false; stringify = stringify }

abbrev to_do : String → List String → CreateTaskInput
to_do subject deps = record {
  subject = subject;
  description = "";
  blocked_by = some deps;
  agent_type = none;
  owner = none;
  status = none;
}

abbrev build : Task
build =
    created (record { uuid = "a"; now = "t0"; written = true; stringify = stringify })
      (to_do "build" [])

abbrev test : Task
test =
    created (record { uuid = "b"; now = "t0"; written = true; stringify = stringify })
      (to_do "test" ("a" ∷ []))

abbrev graph : Store
graph = record {
  tasks = ("a", build) ∷ ("b", test) ∷ [];
  file = some (stringify (map task_fields (build ∷ test ∷ [])));
}

abbrev take_task : String → ClaimTaskInput
take_task id = record {
  task_id = some id;
  owner = "agent";
  agent_type = explore;
  subject = none;
  description = none;
  worktree_path = some "/wt";
  worktree_branch = none;
}

abbrev cleaned : FinishTaskInput
cleaned = record { worktree_path = none; worktree_branch = none; duration_ms = some 5 }

abbrev held : Task
held = claimed env (take_task "a") build

abbrev busy : Store
busy = record { tasks = ("a", held) ∷ ("b", test) ∷ []; file = none }

abbrev settled : Store
settled = record {
  tasks = ("a", finished env (done "ok") cleaned held) ∷ ("b", test) ∷ [];
  file = none;
}

claim_runs : (claim_task env (take_task "b") graph).0 ≡ err (blocked "b" ("a" ∷ []))
unfolding claim_task lookup
claim_runs = refl

claim_granted : claim_task env (take_task "a") graph ≡ granted env (take_task "a") build graph
unfolding claim_task lookup insert values
claim_granted = refl

run-IsIndexed_example :
    IsIndexed
      (run
        ((offline, claim (take_task "a")) ∷ (env, settle "a" (done "ok") cleaned) ∷ [])
        graph).tasks
run-IsIndexed_example =
    run-IsIndexed ((offline, claim (take_task "a")) ∷ (env, settle "a" (done "ok") cleaned) ∷ [])
      graph (refl, (ground (arith, eq_iff "b" "a"), tt), (refl, tt, tt))

-- The text of the graph behind a claim of its first task and a reset, and its parse.
abbrev saved_text : String
saved_text =
    "[{\"id\":\"a\",\"subject\":\"build\",\"description\":\"\",\"status\":\"pending\","
    & "\"blockedBy\":[],\"agentType\":\"Explore\",\"createdAt\":\"t0\",\"updatedAt\":\"t9\"},"
    & "{\"id\":\"b\",\"subject\":\"test\",\"description\":\"\",\"status\":\"pending\","
    & "\"blockedBy\":[\"a\"],\"createdAt\":\"t0\",\"updatedAt\":\"t0\"}]"

abbrev common_fields : String → String → List String → String → Dict Field → Dict Field
common_fields id subject deps updated agent =
    ("id", text id)
      ∷ ("subject", text subject)
      ∷ ("description", text "")
      ∷ ("status", text "pending")
      ∷ ("blockedBy", texts deps)
      ∷ agent
    ++ ("createdAt", text "t0") ∷ ("updatedAt", text updated) ∷ []

abbrev parse : String → Option (List (Dict Field))
parse s =
    if str_eq s saved_text
    then some (
        common_fields "a" "build" [] "t9" (("agentType", text "Explore") ∷ [])
        ∷ common_fields "b" "test" ("a" ∷ []) "t0" []
        ∷ [])
    else none

abbrev restarted : Store
restarted = run ((env, claim (take_task "a")) ∷ (env, reset) ∷ []) graph

restarted-Parses : Parses parse stringify (map task_fields (values restarted.tasks))
unfolding values stringify run claim_task reset_dangling_tasks lookup insert decimal step
restarted-Parses = refl

graph-IsSaved : IsSaved stringify graph
unfolding values
graph-IsSaved = refl

load_task_store-run_example :
    load_task_store parse true (run ((env, claim (take_task "a")) ∷ (env, reset) ∷ []) graph).file
    ≡ loaded (run ((env, claim (take_task "a")) ∷ (env, reset) ∷ []) graph)
load_task_store-run_example =
    load_task_store-run parse stringify ((env, claim (take_task "a")) ∷ (env, reset) ∷ []) graph
      (refl, (ground (arith, eq_iff "b" "a"), tt), (refl, tt, tt)) graph-IsSaved
      ((refl, refl), ((refl, refl), tt)) restarted-Parses

claim_task-granted_iff_example :
    (claim_task env (take_task "a") graph ≡ granted env (take_task "a") build graph)
    ↔ ((build.owner ≡ none) × AreCompleted graph.tasks build.blocked_by)
unfolding lookup
claim_task-granted_iff_example =
    claim_task-granted_iff env (take_task "a") "a" graph build refl refl refl

claim_fails : (claim_task offline (take_task "a") graph).0 ≡ err platform_error
unfolding claim_task lookup
claim_fails = refl

claim_task_unwritten_example :
    let after = (claim_task offline (take_task "a") graph).1 in
    let later = run ((env, mark ("a" ∷ [])) ∷ []) after in
    (after.file ≡ graph.file)
    × (u : Task) × (lookup "a" after.tasks ≡ some u)
    × (u.status ≡ in_progress)
    × (u.owner ≡ some "agent")
    × (o : String) × (claim_task env (take_task "a") later ≡ (err (already_owned "a" o), later))
claim_task_unwritten_example =
    claim_task_unwritten offline env (take_task "a") (take_task "a") "a" graph
      ((env, mark ("a" ∷ [])) ∷ []) (refl, (ground (arith, eq_iff "b" "a"), tt), (refl, tt, tt))
      refl claim_fails (ground (arith, eq_iff "u9" "a"), tt) refl

claim_task_refused_example : (claim_task env (take_task "b") graph).1 ≡ graph
claim_task_refused_example =
    claim_task_refused env (take_task "b") graph (blocked "b" ("a" ∷ [])) claim_runs (λ e. cc e)

claim_once_example :
    let later =
      run ((env, settle "a" (done "ok") cleaned) ∷ []) (claim_task env (take_task "a") graph).1 in
    (o : String) × (claim_task env (take_task "a") later ≡ (err (already_owned "a" o), later))
claim_once_example =
    claim_once env env (take_task "a") (take_task "a") graph held
      ((env, settle "a" (done "ok") cleaned) ∷ []) (ap (λ x. x.0) claim_granted)
      (ground (arith, eq_iff "u9" "a"), tt) refl

abbrev key : String
key = "a"

lookup-finish_example :
    let after = lookup key (finish offline key (done "ok") cleaned busy).1.tasks in
    ((key ≡ key) × (u : Task) × (after ≡ some u) × IsFinished "t9" (done "ok") cleaned held u)
    ⊎ ((key ≢ key) × (after ≡ lookup key busy.tasks))
unfolding lookup
lookup-finish_example = lookup-finish offline key (done "ok") cleaned busy held refl key

finish-awaits_parent_example :
    Memᴰ
      (finished env (done "ok") cleaned held)
      (pending_parent_notifications (finish env "a" (done "ok") cleaned busy).1)
unfolding lookup
finish-awaits_parent_example =
    finish-awaits_parent env "a" (done "ok") cleaned busy held refl "agent" refl refl

pending-mark_parent_notified_example :
    pending_parent_notifications
      (mark_parent_notified env (map (λ t. t.id) (pending_parent_notifications settled)) settled).1
    ≡ []
pending-mark_parent_notified_example =
    pending-mark_parent_notified env settled
      (refl, (ground (arith, eq_iff "b" "a"), tt), (refl, tt, tt))

lookup-reset_dangling_tasks_example :
    let found = lookup "a" (reset_dangling_tasks env busy).1.tasks in
    ((held.status ≡ in_progress)
      × (o : String) × (held.owner ≡ some o)
      × (found
          ≡ some (record held {
            status = pending;
            owner = none;
            worktree_path = none;
            worktree_branch = none;
            updated_at = "t9";
          })))
    ⊎ (((held.status ≢ in_progress) ⊎ (held.owner ≡ none)) × (found ≡ some held))
unfolding lookup
lookup-reset_dangling_tasks_example =
    lookup-reset_dangling_tasks env busy
      (refl, (ground (arith, eq_iff "b" "a"), tt), (refl, tt, tt)) "a" held refl
