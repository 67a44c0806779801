-- ===== src/Plugin.antt =====
-- The controller plugins (src/dram_controller/impl/plugin).
pub mod Table
pub mod Graphene
pub mod Estimate
pub mod Tracking
pub mod Guarantee
pub mod Period
pub mod Landing
pub mod Guarded
