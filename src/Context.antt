-- ===== src/Context.antt =====
-- packages/core/src/context: what of a session's history is sent to the model, how many tokens it
-- is estimated to take, and how older history is folded into a summary.
pub mod Tokens
pub mod Projection
pub mod Pairing
pub mod Accounting
pub mod Cut
pub mod Compaction
mod Tests
