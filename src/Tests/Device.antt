-- ===== src/Tests/Device.antt =====
-- Concrete inputs for the theorems on opcodes, masks, addresses and the GDDR6 device.
use aim_simulator.Base.{
  take, ◌++◌, ◌+◌, ◌-◌, Result, Bool, err, All, ℕ, ◌/◌, ◌^◌, ◌<◌, ◌≡◌, inr, refl, true, false, List,
  [], ◌∷◌, ℤ, pos, minus_one, some, ok, ◌>>=◌, get_elem?, length, if◌then◌else◌, arith, ◌↔◌,
}
use aim_simulator.Isr.Table.{AimIsr, isr_mac_sbk, isr_mac_sbk_info, aim_opcode_to_str}
use aim_simulator.Isr.Info.{convert_aim_opcode_to_aim_isr, convert_opcode_str_to_aim_isr}
use aim_simulator.Isr.Names.{opcode_roundtrip, opcode_str_sound, IsBlocking, IsBlocking-iff}
use aim_simulator.Request.{Request, default_request, addr_at}
use aim_simulator.Request.Buffer.{ReqBuffer, enqueue_all, enqueue_all-take}
use aim_simulator.Mask.Bits.{visits, count_set_bit, channels, max_channel_count}
use aim_simulator.Mask.Channels.{visits-channels}
use aim_simulator.System.AddrMap.{Organization, apply_addr_mapp, set_bank, set_channel}
use aim_simulator.System.Location.{IsLayout, IsBankAt, apply_addr_mapp_location}
use aim_simulator.Gddr6.Commands.{rd, pre, act, mac16, prea, act16}
use aim_simulator.Gddr6.Node.{
  Node, opened, closed, not_applicable, BankGroup, Channel, has_row, open_bank, close_bank,
  level_at,
}
use aim_simulator.Gddr6.Preq.{other_row_in, any_closed_in}
use aim_simulator.Gddr6.Channel.{update_states, get_preq_command, needs_row}
use aim_simulator.Gddr6.Timing.{
  TimingCons, NodeTiming, push_history, hold_target, update_node_timing,
}
use aim_simulator.Gddr6.Holding.{IsLater, IsHeld, IsHeldFrom, update_node_timing-IsHeld}
use aim_simulator.Gddr6.Opening.{bank_addr, IsBankOf, bank_in, row_protocol, update_states-one_bank}
use aim_simulator.Gddr6.AllBank.{needs_all_rows, all_rows_protocol}
use aim_simulator.Mapper.Linear.{
  Mapper, apply_charabaroco, apply_robaracoch, charabaroco_order, robaracoch_order,
}
use aim_simulator.Mapper.Slices.{join, linear_lossless}

opcode_roundtrip_example :
    (isr : AimIsr) × (convert_aim_opcode_to_aim_isr isr_mac_sbk ≡ ok isr)
    × (convert_opcode_str_to_aim_isr "ISR_MAC_SBK" ≡ ok isr)
    × (isr.opcode ≡ isr_mac_sbk)
opcode_roundtrip_example = opcode_roundtrip isr_mac_sbk refl

opcode_str_sound_example : aim_opcode_to_str isr_mac_sbk_info.opcode ≡ some "ISR_MAC_SBK"
unfolding convert_opcode_str_to_aim_isr
opcode_str_sound_example = opcode_str_sound "ISR_MAC_SBK" {isr = isr_mac_sbk_info} refl

IsBlocking-iff_example : (isr_mac_sbk_info.aim_dma_blocking ≡ true) ↔ IsBlocking isr_mac_sbk
unfolding convert_aim_opcode_to_aim_isr
IsBlocking-iff_example = IsBlocking-iff isr_mac_sbk {isr = isr_mac_sbk_info} refl

-- Two requests are over the limit of one, and are taken; the third is not.
abbrev buffer_of_one : ReqBuffer Request
buffer_of_one = record { buffer = []; max_size = 1 }

abbrev three_requests : List Request
three_requests = default_request ∷ record default_request { addr = pos 1 } ∷ default_request ∷ []

enqueue_all-take_example :
    ((enqueue_all buffer_of_one three_requests).buffer ≡ [] ++ take (1 + 1 - 0) three_requests)
    × ((enqueue_all buffer_of_one three_requests).max_size ≡ 1)
enqueue_all-take_example = enqueue_all-take buffer_of_one three_requests

-- Bits 31 and 29 select the channels 0 and 2.
visits-channels_example : visits (count_set_bit 2684354560) 2684354560 ≡ (channels 2684354560, 0)
visits-channels_example = visits-channels 2684354560 (omega arith)

abbrev pub gddr6 : Organization
gddr6 = record {
  num_levels = 5;
  has_rank = false;
  channel_level = 0;
  rank_level = 0;
  bankgroup_level = 1;
  bank_level = 2;
  row_level = 3;
  column_level = 4;
  num_bankgroups = pos 4;
  banks_per_bankgroup = pos 4;
}

gddr6-IsLayout : IsLayout gddr6
gddr6-IsLayout = record {
  rank_between = λ h. absurd (ground arith);
  channel_bankgroup = omega arith;
  bankgroup_bank = omega arith;
  bank_row = omega arith;
  row_column = omega arith;
  column_in = omega arith;
}

abbrev pub bank_request : Request
bank_request = record default_request { bank_index = pos 6; row_addr = pos 9; col_addr = pos 3 }

abbrev bank_address : Request
bank_address = record bank_request { addr_vec = pos 2 ∷ pos 1 ∷ pos 2 ∷ pos 9 ∷ pos 3 ∷ [] }

apply_addr_mapp_location_example :
    ((c : ℕ) × (pos 2 ≡ pos c) × (c < max_channel_count))
    × (length bank_address.addr_vec ≡ 5)
    × (addr_at bank_address 0 ≡ pos 2)
    × IsBankAt gddr6 (pos 6) (addr_at bank_address 1) (addr_at bank_address 2)
    × (addr_at bank_address 3 ≡ pos 9)
    × (addr_at bank_address 4 ≡ pos 3)
unfolding apply_addr_mapp set_bank set_channel
apply_addr_mapp_location_example =
    apply_addr_mapp_location gddr6 bank_request (pos 2) {r = bank_address} gddr6-IsLayout refl

-- A channel with a bank group of two banks, the second one open at row 5.
abbrev idle_bank : Node
idle_bank = record { node_id = pos 0; state = closed; row_state = [] }

abbrev busy_bank : Node
busy_bank = record { node_id = pos 1; state = opened; row_state = pos 5 ∷ [] }

abbrev two_banks : BankGroup
two_banks = record {
  node = record { node_id = pos 0; state = not_applicable; row_state = [] };
  banks = idle_bank ∷ busy_bank ∷ [];
}

abbrev small_channel : Channel
small_channel = record {
  node = record { node_id = pos 0; state = not_applicable; row_state = [] };
  bankgroups = two_banks ∷ [];
}

busy-IsBankOf : IsBankOf small_channel 0 1 two_banks busy_bank
busy-IsBankOf = record { group_at = refl; bank_at = refl }

abbrev busy_addr : List ℤ
busy_addr = bank_addr (pos 0) 0 1 (pos 7) (pos 2)

row_protocol_example :
    (busy_bank.state ≡ closed → get_preq_command rd busy_addr small_channel ≡ ok act)
    × (busy_bank.state ≡ opened
        → get_preq_command rd busy_addr small_channel
          ≡ ok (if has_row (pos 7) busy_bank.row_state then rd else pre))
    × ((update_states pre busy_addr small_channel >>= get_preq_command rd busy_addr) ≡ ok act)
    × ((update_states act busy_addr small_channel >>= get_preq_command rd busy_addr) ≡ ok rd)
unfolding needs_row
row_protocol_example =
    row_protocol rd (pos 0) 0 1 (pos 7) (pos 2) small_channel two_banks busy_bank refl busy-IsBankOf

update_states-one_bank_example :
    (e : Channel) × (f : Channel) × (update_states act busy_addr small_channel ≡ ok e)
    × (update_states pre busy_addr small_channel ≡ ok f)
    × (bank_in (get_elem? e.bankgroups 0) 1 ≡ some (open_bank (pos 7) busy_bank))
    × (bank_in (get_elem? f.bankgroups 0) 1 ≡ some (close_bank busy_bank))
    × (bank_in (get_elem? e.bankgroups 0) 0 ≡ bank_in (get_elem? small_channel.bankgroups 0) 0)
    × (bank_in (get_elem? f.bankgroups 0) 0 ≡ bank_in (get_elem? small_channel.bankgroups 0) 0)
update_states-one_bank_example =
    update_states-one_bank (pos 0) 0 1 0 0 (pos 7) (pos 2) small_channel two_banks busy_bank
      busy-IsBankOf (inr (λ h. omega (arith, h)))

-- All-bank commands leave bank group and bank at -1.
abbrev all_addr : List ℤ
all_addr = pos 0 ∷ minus_one ∷ minus_one ∷ pos 7 ∷ pos 2 ∷ []

all_rows_protocol_example :
    (get_preq_command mac16 all_addr small_channel
      ≡ ok (
          if other_row_in (level_at all_addr 3) small_channel.bankgroups
          then prea
          else (if any_closed_in small_channel.bankgroups then act16 else mac16)))
    × ((update_states prea all_addr small_channel >>= get_preq_command mac16 all_addr) ≡ ok act16)
    × ((update_states act16 all_addr small_channel >>= get_preq_command mac16 all_addr) ≡ ok mac16)
unfolding needs_all_rows
all_rows_protocol_example =
    all_rows_protocol mac16 all_addr small_channel 0 1 two_banks busy_bank refl busy-IsBankOf

-- 4 channels, 4 bank groups, 4 banks, 16384 rows and 64 columns; 32 bytes a transaction.
abbrev gddr6_mapper : Mapper
gddr6_mapper = record { addr_bits = 2 ∷ 2 ∷ 2 ∷ 14 ∷ 3 ∷ []; tx_offset = 5; row_bits_idx = 3 }

linear_lossless_example :
    ((rest : ℕ) × (join gddr6_mapper.addr_bits
          (charabaroco_order gddr6_mapper)
          (apply_charabaroco gddr6_mapper 123456789 [])
          rest
        ≡ 123456789 / 2 ^ gddr6_mapper.tx_offset))
    × ((rest : ℕ) × (join gddr6_mapper.addr_bits
            (robaracoch_order gddr6_mapper)
            (apply_robaracoch gddr6_mapper 123456789 [])
            rest
          ≡ 123456789 / 2 ^ gddr6_mapper.tx_offset))
linear_lossless_example = linear_lossless gddr6_mapper 123456789 [] (omega arith)

-- An activation holds reads of the bank back for 36 cycles, and every activation for 90.
abbrev act_constraints : List TimingCons
act_constraints =
    record { cmd = rd; val = pos 36; window = 1; is_sibling = false }
    ∷ record { cmd = act; val = pos 90; window = 1; is_sibling = false }
    ∷ []

abbrev fresh_node : NodeTiming
fresh_node = record {
  node_id = pos 1;
  level = 2;
  cmd_ready_clk = λ c. minus_one;
  cmd_history = λ c. minus_one ∷ [];
}

abbrev value_of : {A : Type 0} → Result A → A → A
value_of (ok a) b = a
value_of (err e) b = b

abbrev activated : NodeTiming × Bool
activated =
    value_of (update_node_timing act_constraints act busy_addr (pos 100) fresh_node)
      (fresh_node, false)

update_node_timing-IsHeld_example :
    IsLater fresh_node.cmd_ready_clk activated.0.cmd_ready_clk
    × (activated.1 ≡ false
        → All
            (λ t. t.is_sibling ≡ true → IsHeld (pos 100) activated.0.cmd_ready_clk t)
            act_constraints)
    × (activated.1 ≡ true
        → All
            (IsHeldFrom (push_history (pos 100) (minus_one ∷ [])) activated.0.cmd_ready_clk)
            act_constraints)
unfolding update_node_timing hold_target push_history
update_node_timing-IsHeld_example =
    update_node_timing-IsHeld act_constraints act busy_addr (pos 100) fresh_node {m = activated.0}
      {target = activated.1} refl
