-- ===== src/Agent.antt =====
-- packages/core/src/agent.ts, with what it calls of tool.ts: the
-- loop that runs a user's turn over a session.
pub mod State
pub mod Storage
pub mod Tools
pub mod Interrupt
pub mod Switch
pub mod Loop
pub mod Turn
mod Tests
