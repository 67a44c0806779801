-- ===== src/Isr/Info.antt =====
-- src/base/request.h: the static functions of `AiMISRInfo`, over the tables as `init` leaves them.
use Prim.Native.String.{String}
use text.Mathlib.Text.{◌==◌ as str_eq}
use aim_simulator.Base.{
  Bool, Option, none, some, List, [], ◌∷◌, if◌then◌else◌, Result, ok, configuration_error, ◌>>=◌,
  or_fail,
}
use aim_simulator.Isr.Table.{
  RequestType, read, write, aim, MemAccessRegion, gpr, cfr, mem, Opcode, AimIsr,
  opcode_str_to_aim_isr, aim_opcode_to_str,
}

-- `std::map::find` on a map with text keys.
unfoldable pub lookup_str {ℓ} : {A : Type ℓ} → String → List (String × A) → Option A
lookup_str k [] = none
lookup_str k ((j, a) ∷ m) = if str_eq j k then some a else lookup_str k m

abbrev pub str_to_type : List (String × RequestType)
str_to_type = ("R", read) ∷ ("W", write) ∷ ("AiM", aim) ∷ []

abbrev pub str_to_mem_access_region : List (String × MemAccessRegion)
str_to_mem_access_region = ("GPR", gpr) ∷ ("CFR", cfr) ∷ ("MEM", mem) ∷ []

unfoldable pub convert_str_to_type : String → Result RequestType
unfolding lookup_str
convert_str_to_type s = or_fail (lookup_str s str_to_type) configuration_error

unfoldable pub convert_str_to_mem_access_region : String → Result MemAccessRegion
unfolding lookup_str
convert_str_to_mem_access_region s =
    or_fail (lookup_str s str_to_mem_access_region) configuration_error

unfoldable pub convert_opcode_str_to_aim_isr : String → Result AimIsr
unfolding lookup_str
convert_opcode_str_to_aim_isr s = or_fail (lookup_str s opcode_str_to_aim_isr) configuration_error

unfoldable pub convert_aim_opcode_to_str : Opcode → Result String
convert_aim_opcode_to_str o = or_fail (aim_opcode_to_str o) configuration_error

-- The subscript of the map would add a default entry for a missing name; none is missing, which is
-- why the lookup that fails is a plain error here.
unfoldable pub convert_aim_opcode_to_aim_isr : Opcode → Result AimIsr
unfolding convert_aim_opcode_to_str lookup_str
convert_aim_opcode_to_aim_isr o = do
  name ← convert_aim_opcode_to_str o
  or_fail (lookup_str name opcode_str_to_aim_isr) configuration_error

unfoldable pub opcode_requires_reg_rw_mod : Opcode → Result Bool
unfolding convert_aim_opcode_to_aim_isr
opcode_requires_reg_rw_mod o = do isr ← convert_aim_opcode_to_aim_isr o; ok isr.require_reg_rw_mod
