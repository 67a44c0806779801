-- ===== src/Lib.antt =====
-- A model of the AiM DRAM simulator: the memory system that decodes AiM instructions, the channel
-- controllers that schedule them, and the GDDR6 device that they are issued to.
--
-- A host sends requests to the memory system (src/memory_system/impl/aim_DRAM_system.cpp). Its ISR
-- queue is served from the front: an AiM instruction becomes requests to the channels of its mask,
-- one for each column; a request that a controller refuses waits in a queue of its channel. A
-- controller (src/dram_controller/impl/AiM_dram_controller.cpp) keeps five buffers, finds one
-- request each cycle, and issues the command that the device asks for next. A request that departs
-- is called back when its data is there; the memory system counts the responses that it awaits.
--
-- Base: names and lemmas that all share; Base/Int the integers of the program, Base/Outcome the
--   exceptions and exits as values.
-- Isr, Request (src/base/request.h, src/base/request.cpp): the ISR table with its look-ups, the
--   request, and the request buffer. An iterator of a buffer is a position.
-- Mask: `CountSetBit` and `FindFirstChannelIndex` of the memory system.
-- System: `send`, `tick`, `receive` and `apply_addr_mapp` of the memory system. The controllers
--   are an interface, ControllerOps, which every theorem takes as a parameter; a call of `tick`
--   lists the requests that it calls back.
-- Controller: `send`, `priority_send` and `tick` of the AiM controller, with the FRFCFS scheduler
--   (src/dram_controller/impl/scheduler/generic_scheduler.cpp) and the all-bank refresh manager
--   (src/dram_controller/impl/refresh/all_bank_refresh.cpp). The device is an interface, DramOps.
-- Gddr6 (src/dram/impl/GDDR6.cpp, src/dram/node.h, src/dram/lambdas): the tables, actions and
--   prerequisites of the device, and the walks over its tree of nodes; the three levels that GDDR6
--   has above the row are three record types. Gddr6/Timing has the timing of one node.
-- Mapper (src/addr_mapper/impl/linear_mappers.cpp, src/base/utils.h): two linear mappers.
-- Frontend (src/frontend/impl/memory_trace/aim_trace.cpp, `tokenize` of src/base/utils.cpp): the
--   reader of a trace of host requests, and the frontend that sends them. A file is the list of its
--   lines that a newline ends; `Todo` is the abstract trace, the requests still to be read. The two
--   other traces (loadstore_trace.cpp, readwrite_trace.cpp) are Frontend/LoadStore and ReadWrite.
-- Machine (src/main.cpp): the loop of the program, with frontend and memory system, on fuel: the
--   theorems hold for every number of rounds.
-- Plugin (src/dram_controller/impl/plugin/graphene.cpp): the counters of Graphene. The order in
--   which an unordered map is searched is a parameter, IsOrder what is known of it.
-- Processor (src/frontend/impl/processor/simpleO3): the instruction window, as a ring and as the
--   queue that it holds; the core, to which translation and cache are an interface, MemoryOps; the
--   cache, whose theorems fill the laws of that interface; the frontend that joins them. An iterator
--   of a cache set is the number of its list node. `check_set_hit` reads through the end iterator of
--   a set when a line is absent; what that read yields, an error or a value, is the parameter
--   `end_read`.
-- Translation (src/translation/impl): the address translations. The generator of random numbers is
--   an interface. The loops that draw a page may not end in the program; their fuel is enough once the
--   generator gives a page that will do within it. Its `1 << m_offsetbits` is defined below 31 bits.
-- Tests: concrete inputs for the theorems.
--
-- The model is of a release build: assertions are dropped. Signed counters are not bounded, since
-- their overflow is not defined; conversions to 16 and 32 bits and the masks are written out. An
-- access that is not defined is the error `undefined`. The loops run over 32 channels, over the
-- columns of an instruction, or over lists; `calc_log2` has its argument as fuel, which is enough
-- since each round halves the value.
--
-- Not modelled: the generic controller and memory system, the other plugins of the
-- controllers, how a controller calls its plugins, the floating-point watermarks (a
-- parameter, Watermarks), the statistics that are only registered, logging and configuration, and
-- the devices other than GDDR6.
pub mod Base
pub mod Isr
pub mod Request
pub mod Mask
pub mod System
pub mod Controller
pub mod Gddr6
pub mod Mapper
pub mod Frontend
pub mod Machine
pub mod Plugin
pub mod Processor
pub mod Translation
pub mod Tests
