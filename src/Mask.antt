-- ===== src/Mask.antt =====
-- src/memory_system/impl/aim_DRAM_system.cpp, `CountSetBit` and `FindFirstChannelIndex`. The mask is
-- an `int64_t`, here its 64-bit pattern. The build is a release build, which drops the asserts.
pub mod Bits
pub mod Channels
