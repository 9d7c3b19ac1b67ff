-- ===== src/Llms.antt =====
-- packages/llms: the wire-independent messages and events of a model's turn, and the decoders that
-- make them from a provider's stream.
pub mod Messages
pub mod Turn
pub mod Client
pub mod Sse
pub mod ToolInput
pub mod Stream
pub mod Http
pub mod Anthropic
pub mod OpenaiChat
pub mod Codex
