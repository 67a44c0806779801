-- ===== src/Controller.antt =====
-- src/dram_controller: the AiM channel controller with its scheduler and its refresh manager.
pub mod Device
pub mod Scheduler
pub mod Refresh
pub mod State
pub mod Schedule
pub mod Tick
pub mod Choice
pub mod Frames
pub mod Search
pub mod Bounds
pub mod Invariant
pub mod Held
pub mod Issuing
pub mod Conservation
pub mod Order
pub mod Mode
pub mod Run
