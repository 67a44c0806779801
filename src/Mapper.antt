-- ===== src/Mapper.antt =====
-- src/addr_mapper/impl/linear_mappers.cpp with the bit operations of src/base/utils.h.
pub mod Linear
pub mod Slices
