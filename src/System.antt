-- ===== src/System.antt =====
-- src/memory_system/impl/aim_DRAM_system.cpp: the memory system, which decodes host requests and
-- fans them out to the channel controllers.
pub mod State
pub mod AddrMap
pub mod Fanout
pub mod Tick
pub mod Accounting
pub mod Admission
pub mod Location
pub mod Decoding
pub mod Fifo
pub mod Plan
pub mod Responses
