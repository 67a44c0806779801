-- ===== src/System/Fanout.antt =====
-- src/memory_system/impl/aim_DRAM_system.cpp, `tick`: decoding the host request at the head of the
-- queue, and sending what it stands for to the controllers.
use aim_simulator.Base.{
  ℕ, zero, suc, ◌+◌, ◌^◌, Bool, true, false, [], ◌∷◌, ◌++◌, ℤ, pos, minus_one, pos_part, ◌+ℤ◌,
  eqb_ℤ, to_int16, to_int32, to_uint, ◌==◌, ◌&&◌, ◌||◌, not, Result, ok, err, configuration_error,
  undefined, or_fail, ◌>>=◌, length, get_elem?, set, if◌then◌else◌,
}
use aim_simulator.Isr.Table.{
  RequestType, read, write, ref_all_bank, ref_single_bank, aim, max_type, MemAccessRegion,
  min_region, gpr, cfr, mem, max_region, Opcode, opcode_eq, AimIsr, is_field_legal, Field,
}
use aim_simulator.Isr.Info.{convert_aim_opcode_to_aim_isr}
use aim_simulator.Mask.Bits.{count_set_bit, find_first_channel_index}
use aim_simulator.Request.{Request, dma_receive, addr_at}
use aim_simulator.System.State.{ControllerOps, DramSystem, CfrValues, address_to_cfr, set_cfr}
use aim_simulator.System.AddrMap.{Organization, apply_addr_mapp}

-- `channel_mask` as the 64 bits that `CountSetBit` and `FindFirstChannelIndex` read.
abbrev pub mask_bits : Request → ℕ
mask_bits req = to_uint 64 req.channel_mask

-- `aim_req = host_req`, and the single-bank reads and writes turned into memory accesses.
abbrev pub aim_request : Request → Request
aim_request host =
    if opcode_eq host.opcode Opcode.isr_rd_sbk
    then record host { type = read; mem_access_region = mem; opcode = Opcode.min }
    else if opcode_eq host.opcode Opcode.isr_wr_sbk
    then record host { type = write; mem_access_region = mem; opcode = Opcode.min }
    else host

-- The fields that the configuration registers and the host request fill in before the loops.
abbrev pub with_af : CfrValues → Opcode → Request → Request
with_af c o req =
    if opcode_eq o Opcode.isr_af
    then record req { afm = to_int16 c.afm; row_addr = pos (2 ^ 29) +ℤ to_int16 c.afm }
    else req

abbrev pub with_broadcast : CfrValues → Opcode → Request → Request
with_broadcast c o req =
    if opcode_eq o Opcode.isr_mac_abk || opcode_eq o Opcode.isr_mac_sbk
    then record req { broadcast = to_int16 c.broadcast }
    else req

abbrev pub with_ewmul_bg : CfrValues → Opcode → Request → Request
with_ewmul_bg c o req =
    if opcode_eq o Opcode.isr_mac_abk then record req { ewmul_bg = to_int16 c.ewmul_bg } else req

abbrev pub with_bank_index : AimIsr → Request → Request → Request
with_bank_index isr host req =
    if is_field_legal isr Field.bank_index then record req { bank_index = host.bank_index } else req

abbrev pub with_row_addr : AimIsr → Request → Request → Request
with_row_addr isr host req =
    if is_field_legal isr Field.row_addr then record req { row_addr = host.row_addr } else req

abbrev pub with_callback : AimIsr → Request → Request
with_callback isr req = if isr.aim_dma_blocking then record req { callback = dma_receive } else req

unfoldable pub prepare : CfrValues → AimIsr → Request → Request
prepare c isr host = with_row_addr isr host (
    with_bank_index isr host (
      with_ewmul_bg c host.opcode (
        with_broadcast c host.opcode
          (with_af c host.opcode (with_callback isr (aim_request host))))))

-- The number of rounds of `for (int i = 0; i < opsize; i++)`, with -1 read as 1.
abbrev pub column_count : Request → ℕ
column_count host = if eqb_ℤ host.opsize minus_one then 1 else pos_part host.opsize

abbrev pub first_column : Request → ℤ
first_column host = if eqb_ℤ host.col_addr minus_one then pos 0 else host.col_addr

module _ (ops : ControllerOps) (o : Organization) where
  open ops use {Controller, Dram}

  abbrev pub Sys : Type 0
  Sys = DramSystem Controller Dram

  -- `m_controllers[channel_id]->send(aim_req)`; a refused request waits in the channel's queue.
  unfoldable pub deliver : Sys → Request → ℕ → Result (Sys × Request × Bool)
  deliver s req ch = do
    c ← or_fail (get_elem? s.controllers ch) undefined
    (c', req', sent) ← ops.send c req
    let s' = record s { controllers = set s.controllers ch c' }
    if sent then ok (s', req', true) else do
      waiting ← or_fail (get_elem? s.remaining ch) undefined
      ok (record s' { remaining = set s.remaining ch (waiting ++ req' ∷ []) }, req', false)

  -- The state of the loops: the system, `aim_req`, and `all_AiM_requests_sent`.
  pub record Fan : Type 0 where
    pub sys : Sys
    pub req : Request
    pub all_sent : Bool

  -- The body of the loop over the channels, for the channel that the mask yields.
  unfoldable pub issue_to : AimIsr → Request → ℕ → Fan → Result Fan
  issue_to isr host ch f = do
    let s = f.sys
    let req = record f.req { aim_req_id = s.next_aim_req_id; host_req_id = host.host_req_id }
    req' ← apply_addr_mapp o req (pos ch)
    (s', req'', sent) ← deliver (record s { next_aim_req_id = s.next_aim_req_id +ℤ pos 1 }) req' ch
    let s'' = if isr.aim_dma_blocking then record s' { stalled = s'.stalled +ℤ pos 1 } else s'
    ok (record { sys = s''; req = req''; all_sent = f.all_sent && sent })

  -- The loop over the channels, with `n` rounds left.
  unfoldable pub each_channel : AimIsr → Request → ℕ → ℕ → Fan → Result Fan
  each_channel isr host zero m f = ok f
  each_channel isr host (suc n) m f = do
    let r = find_first_channel_index m
    f' ← issue_to isr host r.0 f
    each_channel isr host n r.1 f'

  -- The loop over the columns, with `n` rounds left and counter `i`.
  unfoldable pub each_column : AimIsr → Request → ℕ → ℕ → Fan → Result Fan
  each_column isr host zero i f = ok f
  each_column isr host (suc n) i f = do
    let m = mask_bits host
    let req = record f.req { col_addr = first_column host +ℤ pos i }
    f' ← each_channel isr host (count_set_bit m) m (record f { req = req })
    each_column isr host n (i + 1) f'

  -- The instructions that address channels by their mask.
  unfoldable pub issue_masked : Sys → Request → Result (Sys × Bool)
  issue_masked s host = do
    isr ← convert_aim_opcode_to_aim_isr host.opcode
    if isr.channel_count_eq_one && not (count_set_bit (mask_bits host) == 1)
        then err configuration_error
        else do
          f ←
              each_column isr host (column_count host) 0
                (record { sys = s; req = prepare s.cfr_values isr host; all_sent = true })
          ok (f.sys, f.all_sent)

  -- ISR_SYNC and ISR_EOC: one request to every controller.
  unfoldable pub each_controller : Request → ℕ → ℕ → Fan → Result Fan
  each_controller host zero ch f = ok f
  each_controller host (suc n) ch f = do
    let s = f.sys
    let req = record f.req { aim_req_id = s.next_aim_req_id; host_req_id = host.host_req_id }
    (s', req', sent) ← deliver (record s { next_aim_req_id = s.next_aim_req_id +ℤ pos 1 }) req ch
    each_controller host n (ch + 1) (record {
      sys = record s' { stalled = s'.stalled +ℤ pos 1 };
      req = req';
      all_sent = f.all_sent && sent;
    })

  unfoldable pub issue_barrier : Sys → Request → Result (Sys × Bool)
  issue_barrier s host = do
    f ← each_controller host (length s.controllers) 0 (record {
      sys = s;
      req = record (aim_request host) { callback = dma_receive };
      all_sent = true;
    })
    ok (f.sys, f.all_sent)

  -- `Type::Read` and `Type::Write` of region MEM.
  unfoldable pub issue_mem : Sys → Request → Result (Sys × Bool)
  issue_mem s host = do
    let req = record host { aim_req_id = s.next_aim_req_id }
    req' ← apply_addr_mapp o req (to_int32 req.channel_mask)
    (s', _, sent) ←
        deliver (record s { next_aim_req_id = s.next_aim_req_id +ℤ pos 1 }) req'
          (pos_part (addr_at req' o.channel_level))
    ok (s', sent)

  -- A write of a configuration register.
  unfoldable pub write_cfr : Sys → Request → Result (Sys × Bool)
  write_cfr s host = do
    register ← or_fail (address_to_cfr host.addr) configuration_error
    ok (record s { cfr_values = set_cfr register host.write_data s.cfr_values }, true)

  -- `switch (opcode)`.
  unfoldable pub decode_aim : Sys → Request → Opcode → Result (Sys × Bool)
  decode_aim s host Opcode.isr_wr_aflut = err configuration_error
  decode_aim s host Opcode.isr_ewadd = ok (s, true)
  decode_aim s host Opcode.isr_sync = issue_barrier s host
  decode_aim s host Opcode.isr_eoc = issue_barrier s host
  decode_aim s host Opcode.min = ok (s, true)
  decode_aim s host Opcode.max = ok (s, true)
  decode_aim s host _ = issue_masked s host

  unfoldable pub decode_read : Sys → Request → MemAccessRegion → Result (Sys × Bool)
  decode_read s host cfr = ok (s, true)
  decode_read s host gpr = ok (s, true)
  decode_read s host mem = issue_mem s host
  decode_read s host min_region = err configuration_error
  decode_read s host max_region = err configuration_error

  unfoldable pub decode_write : Sys → Request → MemAccessRegion → Result (Sys × Bool)
  decode_write s host cfr = write_cfr s host
  decode_write s host gpr = ok (s, true)
  decode_write s host mem = issue_mem s host
  decode_write s host min_region = err configuration_error
  decode_write s host max_region = err configuration_error

  -- `switch (host_req.type)`: the new state, and whether everything was sent.
  unfoldable pub decode : Sys → Request → RequestType → Result (Sys × Bool)
  decode s host aim = decode_aim s host host.opcode
  decode s host read = decode_read s host host.mem_access_region
  decode s host write = decode_write s host host.mem_access_region
  decode s host ref_all_bank = err configuration_error
  decode s host ref_single_bank = err configuration_error
  decode s host max_type = err configuration_error
