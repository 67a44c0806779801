-- ===== src/Isr.antt =====
-- src/base/request.h: request types, memory regions, ISR opcodes, and the description of an ISR.
pub mod Table
pub mod Info
pub mod Names
