-- ===== src/Processor.antt =====
-- The SimpleO3 processor (src/frontend/impl/processor/simpleO3).
pub mod Window
pub mod Ring
pub mod Queue
pub mod Marking
pub mod Core
pub mod Flow
pub mod Ticking
pub mod Cache
pub mod Flight
pub mod Registers
pub mod Sound
pub mod Answering
pub mod Frontend
pub mod Together
