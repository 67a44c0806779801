-- ===== src/System/State.antt =====
-- src/memory_system/impl/aim_DRAM_system.cpp: the state of `AiMDRAMSystem`, its constants, `send`.
use aim_simulator.Base.{
  ℕ, ◌+◌, ◌^◌, Bool, true, false, List, [], ◌∷◌, ◌++◌, ℤ, Option, some, none, ◌==◌, ◌&&◌, Result,
  ok, err, configuration_error, length, if◌then◌else◌, eqb_ℤ,
}
use aim_simulator.Isr.Table.{
  RequestType, read, write, ref_all_bank, ref_single_bank, aim, max_type, MemAccessRegion,
  min_region, gpr, cfr, mem, max_region, Opcode, opcode_eq, type_eq,
}
use aim_simulator.Request.{
  Request, Callback, no_callback, dma_receive, host_callback, checkpoint_callback, core_callback,
}

-- What the memory system uses of a channel controller and of the DRAM device that the controllers
-- share: the virtual functions of `IDRAMController`, and `IDRAM::tick`. `send` may write to the
-- request that it is handed; `tick` lists the requests whose callbacks it calls, in order.
pub record ControllerOps : Type 1 where
  pub Controller : Type 0
  pub Dram : Type 0
  pub send : Controller → Request → Result (Controller × Request × Bool)
  pub tick : Dram → Controller → Result (Dram × Controller × List Request)
  pub dram_tick : Dram → Dram
  pub clock_ratio : Controller → ℕ

-- ISR_SIZE.
abbrev pub isr_size : ℕ
isr_size = 2 ^ 21

-- `CFR_values`, which `init` fills for all three registers.
pub record CfrValues : Type 0 where
  pub broadcast : ℤ
  pub ewmul_bg : ℤ
  pub afm : ℤ

abbrev pub initial_cfr_values : CfrValues
initial_cfr_values = record { broadcast = ℤ.pos 0; ewmul_bg = ℤ.pos 1; afm = ℤ.pos 0 }

-- `CFR`.
pub data Cfr : Type 0 where
  broadcast ewmul_bg afm : Cfr

-- `address_to_CFR.find`.
abbrev pub address_to_cfr : ℤ → Option Cfr
address_to_cfr a =
    if eqb_ℤ a (ℤ.pos 0)
    then some broadcast
    else if eqb_ℤ a (ℤ.pos 1)
    then some ewmul_bg
    else if eqb_ℤ a (ℤ.pos 2)
    then some afm
    else none

abbrev pub set_cfr : Cfr → ℤ → CfrValues → CfrValues
set_cfr broadcast v r = record r { broadcast = v }
set_cfr ewmul_bg v r = record r { ewmul_bg = v }
set_cfr afm v r = record r { afm = v }

pub record DramSystem (C D : Type 0) : Type 0 where
  pub clk : ℕ
  pub dram : D
  pub controllers : List C
  pub request_queue : List Request
  pub remaining : List (List Request)
  pub next_aim_req_id : ℤ
  pub stalled : ℤ
  pub cfr_values : CfrValues
  pub num_rw_requests : RequestType → MemAccessRegion → ℕ
  pub num_aim_requests : Opcode → ℕ
  pub isr_queue_full : ℕ

abbrev pub region_to_int : MemAccessRegion → ℕ
region_to_int min_region = 0
region_to_int gpr = 1
region_to_int cfr = 2
region_to_int mem = 3
region_to_int max_region = 4

abbrev pub count_aim : Opcode → (Opcode → ℕ) → Opcode → ℕ
count_aim o n p = if opcode_eq p o then n p + 1 else n p

abbrev pub count_rw :
    RequestType
    → MemAccessRegion
    → (RequestType → MemAccessRegion → ℕ)
    → RequestType
    → MemAccessRegion
    → ℕ
count_rw t r n u q = if type_eq u t && region_to_int q == region_to_int r then n u q + 1 else n u q

-- `if (req.callback)`.
abbrev pub has_callback : Callback → Bool
has_callback no_callback = false
has_callback dma_receive = true
has_callback host_callback = true
has_callback checkpoint_callback = true
has_callback core_callback = true

module _ {C D : Type 0} where
  -- The `switch` of `send`, after the push.
  abbrev pub count_request : DramSystem C D → Request → RequestType → Result (DramSystem C D × Bool)
  count_request s req aim =
      ok (record s { num_aim_requests = count_aim req.opcode s.num_aim_requests }, true)
  count_request s req read =
      ok
        (record s { num_rw_requests = count_rw read req.mem_access_region s.num_rw_requests }, true)
  count_request s req write =
      ok (
        record s { num_rw_requests = count_rw write req.mem_access_region s.num_rw_requests },
        true,
      )
  count_request s req ref_all_bank = err configuration_error
  count_request s req ref_single_bank = err configuration_error
  count_request s req max_type = err configuration_error

  unfoldable pub send : DramSystem C D → Request → Result (DramSystem C D × Bool)
  send s req =
      if length s.request_queue == isr_size
      then ok (record s { isr_queue_full = s.isr_queue_full + 1 }, false)
      else count_request (record s { request_queue = s.request_queue ++ req ∷ [] }) req req.type
