-- ===== src/Frontend.antt =====
-- src/frontend/impl/memory_trace: the frontends that read a trace.
pub mod Tokens
pub mod Numbers
pub mod Decode
pub mod Trace
pub mod Order
pub mod Kept
pub mod Numbering
pub mod Joined
pub mod LoadStore
pub mod ReadWrite
