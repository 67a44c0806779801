-- ===== src/Tests.antt =====
-- Concrete inputs for the theorems.
pub mod Device
pub mod System
pub mod Controller
pub mod Frontend
pub mod Plugin
pub mod Processor
pub mod Translation
