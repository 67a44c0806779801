-- ===== src/Isr/Table.antt =====
-- src/base/request.h: the enumerations, and the table that `AiMISRInfo::init` fills.
use Prim.Native.String.{String}
use aim_simulator.Base.{ℕ, Bool, true, false, Option, none, some, List, [], ◌∷◌, ◌==◌, ◌||◌}

pub data RequestType : Type 0 where
  read write ref_all_bank ref_single_bank aim max_type : RequestType

pub data MemAccessRegion : Type 0 where
  min_region gpr cfr mem max_region : MemAccessRegion

pub data Opcode : Type 0 where
  min isr_wr_sbk isr_wr_gb isr_wr_bias isr_wr_aflut isr_rd_mac isr_rd_af isr_rd_sbk : Opcode
  isr_copy_bkgb isr_copy_gbbk isr_mac_sbk isr_mac_abk isr_af isr_ewmul isr_ewadd : Opcode
  isr_wr_abk isr_eoc isr_sync max : Opcode

-- `(int)type`.
abbrev pub type_to_int : RequestType → ℕ
type_to_int read = 0
type_to_int write = 1
type_to_int ref_all_bank = 2
type_to_int ref_single_bank = 3
type_to_int aim = 4
type_to_int max_type = 5

-- `(int)opcode`.
abbrev pub opcode_to_int : Opcode → ℕ
opcode_to_int min = 0
opcode_to_int isr_wr_sbk = 1
opcode_to_int isr_wr_gb = 2
opcode_to_int isr_wr_bias = 3
opcode_to_int isr_wr_aflut = 4
opcode_to_int isr_rd_mac = 5
opcode_to_int isr_rd_af = 6
opcode_to_int isr_rd_sbk = 7
opcode_to_int isr_copy_bkgb = 8
opcode_to_int isr_copy_gbbk = 9
opcode_to_int isr_mac_sbk = 10
opcode_to_int isr_mac_abk = 11
opcode_to_int isr_af = 12
opcode_to_int isr_ewmul = 13
opcode_to_int isr_ewadd = 14
opcode_to_int isr_wr_abk = 15
opcode_to_int isr_eoc = 16
opcode_to_int isr_sync = 17
opcode_to_int max = 18

-- Equality of the enumerators.
abbrev pub type_eq : RequestType → RequestType → Bool
type_eq s t = type_to_int s == type_to_int t

abbrev pub opcode_eq : Opcode → Opcode → Bool
opcode_eq s t = opcode_to_int s == opcode_to_int t

-- `(opcode == Opcode::ISR_EOC) || (opcode == Opcode::ISR_SYNC)`, as the controller tests it.
abbrev pub is_barrier : Opcode → Bool
is_barrier o = opcode_eq o isr_eoc || opcode_eq o isr_sync

-- `AiMISR::Field`.
pub data Field : Type 0 where
  opsize gpr_addr_0 gpr_addr_1 channel_mask bank_index row_addr col_addr thread_index : Field

abbrev pub field_to_int : Field → ℕ
field_to_int opsize = 0
field_to_int gpr_addr_0 = 1
field_to_int gpr_addr_1 = 2
field_to_int channel_mask = 3
field_to_int bank_index = 4
field_to_int row_addr = 5
field_to_int col_addr = 6
field_to_int thread_index = 7

pub record AimIsr : Type 0 where
  pub opcode : Opcode
  pub legal_fields : List Field
  pub channel_count_eq_one : Bool
  pub aim_dma_blocking : Bool
  pub require_reg_rw_mod : Bool
  pub target_level : String

-- `std::count(legal_fields.begin(), legal_fields.end(), field)` is not zero.
abbrev pub field_among : Field → List Field → Bool
field_among f [] = false
field_among f (g ∷ gs) = (field_to_int g == field_to_int f) || field_among f gs

abbrev pub is_field_legal : AimIsr → Field → Bool
is_field_legal isr field = field_among field isr.legal_fields

abbrev pub isr_wr_sbk_info : AimIsr
isr_wr_sbk_info = record {
  opcode = isr_wr_sbk;
  legal_fields = gpr_addr_0 ∷ channel_mask ∷ bank_index ∷ row_addr ∷ [];
  channel_count_eq_one = false;
  aim_dma_blocking = false;
  require_reg_rw_mod = false;
  target_level = "column";
}

abbrev pub isr_wr_abk_info : AimIsr
isr_wr_abk_info = record {
  opcode = isr_wr_abk;
  legal_fields = gpr_addr_0 ∷ channel_mask ∷ row_addr ∷ [];
  channel_count_eq_one = true;
  aim_dma_blocking = false;
  require_reg_rw_mod = false;
  target_level = "column";
}

abbrev pub isr_wr_gb_info : AimIsr
isr_wr_gb_info = record {
  opcode = isr_wr_gb;
  legal_fields = opsize ∷ gpr_addr_0 ∷ channel_mask ∷ [];
  channel_count_eq_one = false;
  aim_dma_blocking = false;
  require_reg_rw_mod = true;
  target_level = "channel";
}

abbrev pub isr_wr_bias_info : AimIsr
isr_wr_bias_info = record {
  opcode = isr_wr_bias;
  legal_fields = gpr_addr_0 ∷ channel_mask ∷ [];
  channel_count_eq_one = false;
  aim_dma_blocking = false;
  require_reg_rw_mod = true;
  target_level = "bank";
}

abbrev pub isr_wr_aflut_info : AimIsr
isr_wr_aflut_info = record {
  opcode = isr_wr_aflut;
  legal_fields = opsize ∷ [];
  channel_count_eq_one = false;
  aim_dma_blocking = false;
  require_reg_rw_mod = false;
  target_level = "column";
}

abbrev pub isr_rd_mac_info : AimIsr
isr_rd_mac_info = record {
  opcode = isr_rd_mac;
  legal_fields = gpr_addr_0 ∷ channel_mask ∷ [];
  channel_count_eq_one = false;
  aim_dma_blocking = true;
  require_reg_rw_mod = true;
  target_level = "bank";
}

abbrev pub isr_rd_af_info : AimIsr
isr_rd_af_info = record {
  opcode = isr_rd_af;
  legal_fields = gpr_addr_0 ∷ channel_mask ∷ [];
  channel_count_eq_one = false;
  aim_dma_blocking = true;
  require_reg_rw_mod = true;
  target_level = "bank";
}

abbrev pub isr_rd_sbk_info : AimIsr
isr_rd_sbk_info = record {
  opcode = isr_rd_sbk;
  legal_fields = gpr_addr_0 ∷ channel_mask ∷ bank_index ∷ row_addr ∷ [];
  channel_count_eq_one = false;
  aim_dma_blocking = false;
  require_reg_rw_mod = false;
  target_level = "column";
}

abbrev pub isr_copy_bkgb_info : AimIsr
isr_copy_bkgb_info = record {
  opcode = isr_copy_bkgb;
  legal_fields = opsize ∷ channel_mask ∷ bank_index ∷ row_addr ∷ [];
  channel_count_eq_one = false;
  aim_dma_blocking = false;
  require_reg_rw_mod = false;
  target_level = "column";
}

abbrev pub isr_copy_gbbk_info : AimIsr
isr_copy_gbbk_info = record {
  opcode = isr_copy_gbbk;
  legal_fields = opsize ∷ channel_mask ∷ bank_index ∷ row_addr ∷ [];
  channel_count_eq_one = false;
  aim_dma_blocking = false;
  require_reg_rw_mod = false;
  target_level = "column";
}

abbrev pub isr_mac_sbk_info : AimIsr
isr_mac_sbk_info = record {
  opcode = isr_mac_sbk;
  legal_fields = opsize ∷ channel_mask ∷ bank_index ∷ row_addr ∷ [];
  channel_count_eq_one = false;
  aim_dma_blocking = false;
  require_reg_rw_mod = false;
  target_level = "bank";
}

abbrev pub isr_mac_abk_info : AimIsr
isr_mac_abk_info = record {
  opcode = isr_mac_abk;
  legal_fields = opsize ∷ channel_mask ∷ row_addr ∷ [];
  channel_count_eq_one = false;
  aim_dma_blocking = false;
  require_reg_rw_mod = false;
  target_level = "bank";
}

abbrev pub isr_af_info : AimIsr
isr_af_info = record {
  opcode = isr_af;
  legal_fields = channel_mask ∷ [];
  channel_count_eq_one = false;
  aim_dma_blocking = false;
  require_reg_rw_mod = false;
  target_level = "bank";
}

abbrev pub isr_ewmul_info : AimIsr
isr_ewmul_info = record {
  opcode = isr_ewmul;
  legal_fields = opsize ∷ channel_mask ∷ row_addr ∷ [];
  channel_count_eq_one = false;
  aim_dma_blocking = false;
  require_reg_rw_mod = false;
  target_level = "column";
}

abbrev pub isr_ewadd_info : AimIsr
isr_ewadd_info = record {
  opcode = isr_ewadd;
  legal_fields = opsize ∷ gpr_addr_0 ∷ gpr_addr_1 ∷ [];
  channel_count_eq_one = false;
  aim_dma_blocking = false;
  require_reg_rw_mod = false;
  target_level = "DMA";
}

abbrev pub isr_sync_info : AimIsr
isr_sync_info = record {
  opcode = isr_sync;
  legal_fields = [];
  channel_count_eq_one = false;
  aim_dma_blocking = true;
  require_reg_rw_mod = false;
  target_level = "channel";
}

abbrev pub isr_eoc_info : AimIsr
isr_eoc_info = record {
  opcode = isr_eoc;
  legal_fields = [];
  channel_count_eq_one = false;
  aim_dma_blocking = true;
  require_reg_rw_mod = false;
  target_level = "DMA";
}

-- `opcode_str_to_aim_ISR`, in the order of `init`.
abbrev pub opcode_str_to_aim_isr : List (String × AimIsr)
opcode_str_to_aim_isr =
    ("ISR_WR_SBK", isr_wr_sbk_info)
    ∷ ("ISR_WR_ABK", isr_wr_abk_info)
    ∷ ("ISR_WR_GB", isr_wr_gb_info)
    ∷ ("ISR_WR_BIAS", isr_wr_bias_info)
    ∷ ("ISR_WR_AFLUT", isr_wr_aflut_info)
    ∷ ("ISR_RD_MAC", isr_rd_mac_info)
    ∷ ("ISR_RD_AF", isr_rd_af_info)
    ∷ ("ISR_RD_SBK", isr_rd_sbk_info)
    ∷ ("ISR_COPY_BKGB", isr_copy_bkgb_info)
    ∷ ("ISR_COPY_GBBK", isr_copy_gbbk_info)
    ∷ ("ISR_MAC_SBK", isr_mac_sbk_info)
    ∷ ("ISR_MAC_ABK", isr_mac_abk_info)
    ∷ ("ISR_AF", isr_af_info)
    ∷ ("ISR_EWMUL", isr_ewmul_info)
    ∷ ("ISR_EWADD", isr_ewadd_info)
    ∷ ("ISR_SYNC", isr_sync_info)
    ∷ ("ISR_EOC", isr_eoc_info)
    ∷ []

-- `aim_opcode_to_str`.
abbrev pub aim_opcode_to_str : Opcode → Option String
aim_opcode_to_str min = none
aim_opcode_to_str isr_wr_sbk = some "ISR_WR_SBK"
aim_opcode_to_str isr_wr_abk = some "ISR_WR_ABK"
aim_opcode_to_str isr_wr_gb = some "ISR_WR_GB"
aim_opcode_to_str isr_wr_bias = some "ISR_WR_BIAS"
aim_opcode_to_str isr_wr_aflut = some "ISR_WR_AFLUT"
aim_opcode_to_str isr_rd_mac = some "ISR_RD_MAC"
aim_opcode_to_str isr_rd_af = some "ISR_RD_AF"
aim_opcode_to_str isr_rd_sbk = some "ISR_RD_SBK"
aim_opcode_to_str isr_copy_bkgb = some "ISR_COPY_BKGB"
aim_opcode_to_str isr_copy_gbbk = some "ISR_COPY_GBBK"
aim_opcode_to_str isr_mac_sbk = some "ISR_MAC_SBK"
aim_opcode_to_str isr_mac_abk = some "ISR_MAC_ABK"
aim_opcode_to_str isr_af = some "ISR_AF"
aim_opcode_to_str isr_ewmul = some "ISR_EWMUL"
aim_opcode_to_str isr_ewadd = some "ISR_EWADD"
aim_opcode_to_str isr_sync = some "ISR_SYNC"
aim_opcode_to_str isr_eoc = some "ISR_EOC"
aim_opcode_to_str max = none
