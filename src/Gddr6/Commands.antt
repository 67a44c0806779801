-- ===== src/Gddr6/Commands.antt =====
-- src/dram/impl/GDDR6.cpp: levels, commands and the tables that are indexed by them.
use aim_simulator.Base.{ℕ, Bool, true, false, ◌==◌}
use aim_simulator.Isr.Table.{
  Opcode, min, isr_wr_sbk, isr_wr_gb, isr_wr_bias, isr_wr_aflut, isr_rd_mac, isr_rd_af, isr_rd_sbk,
  isr_copy_bkgb, isr_copy_gbbk, isr_mac_sbk, isr_mac_abk, isr_af, isr_ewmul, isr_ewadd, isr_wr_abk,
  isr_eoc, isr_sync, max,
}

-- `m_levels`.
pub data Level : Type 0 where
  channel bankgroup bank row column : Level

abbrev pub level_to_int : Level → ℕ
level_to_int channel = 0
level_to_int bankgroup = 1
level_to_int bank = 2
level_to_int row = 3
level_to_int column = 4

-- `m_commands`.
pub data Command : Type 0 where
  act prea pre rd wr rda wra ref_ab ref_pb act4 act16 pre4 mac mac16 af16 ewmul16 rdcp wrcp :
      Command
  wrgb rdmac16 rdaf16 wrmac16 wra16 tmod sync eoc unknown : Command

-- The number of a command.
abbrev pub command_to_int : Command → ℕ
command_to_int act = 0
command_to_int prea = 1
command_to_int pre = 2
command_to_int rd = 3
command_to_int wr = 4
command_to_int rda = 5
command_to_int wra = 6
command_to_int ref_ab = 7
command_to_int ref_pb = 8
command_to_int act4 = 9
command_to_int act16 = 10
command_to_int pre4 = 11
command_to_int mac = 12
command_to_int mac16 = 13
command_to_int af16 = 14
command_to_int ewmul16 = 15
command_to_int rdcp = 16
command_to_int wrcp = 17
command_to_int wrgb = 18
command_to_int rdmac16 = 19
command_to_int rdaf16 = 20
command_to_int wrmac16 = 21
command_to_int wra16 = 22
command_to_int tmod = 23
command_to_int sync = 24
command_to_int eoc = 25
command_to_int unknown = 26

abbrev pub command_eq : Command → Command → Bool
command_eq c d = command_to_int c == command_to_int d

-- `m_command_scopes`. A command that the table leaves out has 0, the channel.
unfoldable pub command_scope : Command → Level
command_scope ref_ab = channel
command_scope ref_pb = bank
command_scope act16 = channel
command_scope act4 = bankgroup
command_scope act = row
command_scope prea = channel
command_scope pre4 = bankgroup
command_scope pre = bank
command_scope rd = column
command_scope wr = column
command_scope rda = column
command_scope wra = column
command_scope mac = column
command_scope mac16 = channel
command_scope af16 = channel
command_scope ewmul16 = channel
command_scope rdcp = column
command_scope wrcp = column
command_scope wrgb = channel
command_scope rdmac16 = channel
command_scope rdaf16 = channel
command_scope wrmac16 = channel
command_scope wra16 = channel
command_scope tmod = channel
command_scope sync = channel
command_scope eoc = channel
command_scope unknown = channel

-- `m_level == m_command_scopes[command]`.
abbrev pub is_at_scope : Level → Command → Bool
is_at_scope l c = level_to_int l == level_to_int (command_scope c)

-- `m_command_meta`.
pub record CommandMeta : Type 0 where
  pub is_opening : Bool
  pub is_closing : Bool
  pub is_accessing : Bool
  pub is_refreshing : Bool

abbrev meta : Bool → Bool → Bool → Bool → CommandMeta
meta o c a r = record { is_opening = o; is_closing = c; is_accessing = a; is_refreshing = r }

unfoldable pub command_meta : Command → CommandMeta
command_meta act = meta true false false false
command_meta prea = meta false true false false
command_meta pre = meta false true false false
command_meta rd = meta false false true false
command_meta wr = meta false false true false
command_meta rda = meta false true true false
command_meta wra = meta false true true false
command_meta ref_ab = meta false false false true
command_meta ref_pb = meta false false false true
command_meta act4 = meta true false false false
command_meta act16 = meta true false false false
command_meta pre4 = meta false true false false
command_meta mac = meta false false true false
command_meta mac16 = meta false false true false
command_meta af16 = meta false false false false
command_meta ewmul16 = meta false false true false
command_meta rdcp = meta false false true false
command_meta wrcp = meta false false true false
command_meta wrgb = meta false false false false
command_meta rdmac16 = meta false false false false
command_meta rdaf16 = meta false false false false
command_meta wrmac16 = meta false false false false
command_meta wra16 = meta false true true false
command_meta tmod = meta false false false false
command_meta sync = meta false false false false
command_meta eoc = meta false false false false
command_meta unknown = meta false false false false

-- `m_aim_request_translations`, by the number of the opcode: the table has ISR_SYNC at 16 and
-- ISR_EOC at 17.
unfoldable pub aim_request_translation : Opcode → Command
aim_request_translation min = unknown
aim_request_translation isr_wr_sbk = wr
aim_request_translation isr_wr_gb = wrgb
aim_request_translation isr_wr_bias = wrmac16
aim_request_translation isr_wr_aflut = unknown
aim_request_translation isr_rd_mac = rdmac16
aim_request_translation isr_rd_af = rdaf16
aim_request_translation isr_rd_sbk = rd
aim_request_translation isr_copy_bkgb = rdcp
aim_request_translation isr_copy_gbbk = wrcp
aim_request_translation isr_mac_sbk = mac
aim_request_translation isr_mac_abk = mac16
aim_request_translation isr_af = af16
aim_request_translation isr_ewmul = ewmul16
aim_request_translation isr_ewadd = unknown
aim_request_translation isr_wr_abk = wra16
aim_request_translation isr_eoc = sync
aim_request_translation isr_sync = eoc
aim_request_translation max = unknown
