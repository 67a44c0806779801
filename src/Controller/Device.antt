-- ===== src/Controller/Device.antt =====
-- src/dram/dram.h: what a controller uses of the device, the virtual functions and tables of
-- `IDRAM`. A command is its number.
use aim_simulator.Base.{ℕ, Bool, List, ℤ, Result}
use aim_simulator.Isr.Table.{RequestType, Opcode}

pub record DramOps : Type 1 where
  pub Dram : Type 0
  pub issue_command : Dram → ℤ → List ℤ → Dram
  pub get_preq_command : Dram → ℤ → List ℤ → ℤ
  pub check_ready : Dram → ℤ → List ℤ → Bool
  pub open_rows : Dram → ℕ
  pub is_opening : ℤ → Bool
  pub is_closing : ℤ → Bool
  pub command_latency : ℤ → ℤ
  pub tmod : ℤ
  pub request_translation : RequestType → Result ℤ
  pub aim_request_translation : Opcode → Result ℤ
