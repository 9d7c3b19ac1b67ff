-- ===== src/Lib.antt =====
-- Swain: a terminal coding agent, in TypeScript with Effect.
--
-- The program has three packages. packages/llms turns a request into a stream of events of one
-- provider. packages/core keeps a session, runs the agent's loop over it, compacts its context, and
-- holds the graph of tasks by which child agents are coordinated. packages/tui is the terminal.
--
-- - Common: lists, options, maps and texts over the native numbers and strings. A `Map` is a list
--   of pairs in the order of insertion, as in JavaScript.
-- - Llms: Llms/Messages is packages/llms/src/schema/messages.ts; Llms/Turn is `fromEvents` of
--   packages/llms/src/schema/events.ts; Llms/Client is the request and the reply of
--   packages/llms/src/llm.ts. The providers behind the client are a function that is given.
--   The transport and the protocols below it are modelled from the bytes' text to the events:
--   Llms/Sse is transport/sse.ts, Llms/Http what transport/http.ts makes of a response,
--   Llms/ToolInput is protocols/tool-input.ts, Llms/Stream what the decoders share, and
--   Llms/Anthropic, Llms/OpenaiChat and Llms/Codex are the decoders of
--   protocols/anthropic-messages.ts, protocols/openai-chat.ts and
--   protocols/openai-codex-responses.ts. A chunk arrives parsed: JSON is a parameter.
-- - Session: packages/core/src/state/session.ts, with `recordModelTransition`.
-- - Context: packages/core/src/context. Context/Tokens and Context/Accounting estimate a request;
--   Context/Projection is `deriveContext`, Context/Pairing is `isValidlyPaired`, Context/Cut is
--   `selectCut`, and Context/Compaction is `compactSession` as a function from a session and a
--   client to an outcome and the session left behind.
-- - Tasks: packages/core/src/tasks.ts. An operation is a function from the store to a result and
--   the store left behind; an environment gives its clock, its fresh id, `JSON.stringify` and whether
--   its write to the disk succeeds. Tasks/File is the objects that are written and `TaskSchema`, by
--   which they are read; `JSON.parse` is a function that is given. Tasks/Run is sequences of
--   operations.
-- - Agent: packages/core/src/agent.ts. Agent/Tools is `callTool` of packages/core/src/tool.ts;
--   Agent/State is what the loop runs on; Agent/Switch is `resolveSwitch`; Agent/Loop is
--   `executeTools` and `loop`; Agent/Turn is `runWithOverflowRetry` and `runTurn`; Agent/Interrupt
--   is `recordInterruption`. The world outside the session is a type that the model is given, with
--   functions for one attempt at a stream, a pause, the clocks and a tool's call. The replacement
--   of oversized results is the interface that the source has for it, with the law that a result
--   keeps its call's id.
--   Agent/Storage is packages/core/src/context/tool-result-storage.ts over a file system and a
--   clock that are given.
-- - Permissions: packages/core/src/permission.ts.
-- - Children: packages/core/src/subagents/definitions.ts and tools.ts, which give a child its
--   tools; Children/Commands is the part of packages/core/src/tools/bash.ts that decides whether a
--   command only reads.
-- - Orchestrator: packages/core/src/orchestrator.ts. Orchestrator/Fiber is the state of a child and
--   what it does, Orchestrator/Recover is recovery, Orchestrator/Steps is the interleavings as a
--   step relation: a spawn is one step, and a finalizer goes from point to point, a step each.
-- - Router: packages/tui/src/router.ts. Router/Ids is the identifiers of targets and
--   Router/Frontier the choice among priced and scored models, over an order of numbers that is
--   given.
--
-- `loop` recurses on the iterations that are left; the retries of a stream recurse on their count.
-- The loop of the parser of events recurses on the length of its buffer, each of whose turns removes
-- a separator. Other loops are structural recursion and need no fuel. A count in a text has at most 20 digits, which
-- every safe integer of JavaScript fits. Numbers are unbounded: token counts and lengths stay far
-- below the bound of safe integers. `AUTO_COMPACT_FRACTION` is 9/10, compared in whole numbers.
--
-- Not modelled: the lowering of a request to a provider's JSON, the sending of
-- a request, the trace and the default runner of a child, the tools that run programs or reach
-- files and services, worktrees, the session's file, the catalogs of models, the terminal, and the
-- evaluations. They are I/O, tables and translations.
pub mod Common
pub mod Llms
pub mod Session
pub mod Permissions
pub mod Context
pub mod Tasks
pub mod Agent
pub mod Children
pub mod Orchestrator
pub mod Router
