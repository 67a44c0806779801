-- ===== src/Gddr6.antt =====
-- src/dram/impl/GDDR6.cpp, src/dram/node.h and src/dram/lambdas: the GDDR6 device.
pub mod Commands
pub mod Node
pub mod Action
pub mod Preq
pub mod Channel
pub mod AllBank
pub mod Timing
pub mod Holding
pub mod Opening
