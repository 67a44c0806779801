-- ===== src/Tests/System.antt =====
-- Concrete inputs for the theorems on the memory system.
use aim_simulator.Base.{
  ℕ, suc, ◌*◌, ◌<◌, ◌≡◌, refl, Bool, true, false, List, [], ◌∷◌, ◌++◌, pos, ◌+ℤ◌, ◌-ℤ◌, Result, ok,
  err, configuration_error, ◌>>=◌, replicate, arith,
}
use aim_simulator.Isr.Table.{aim, isr_wr_gb, isr_wr_gb_info, isr_sync}
use aim_simulator.Isr.Info.{convert_aim_opcode_to_aim_isr}
use aim_simulator.Request.{Request, default_request, dma_receive, host_callback}
use aim_simulator.Mask.Bits.{
  count_set_bit, channels, count_from, find_first_channel_index, find_from,
}
use aim_simulator.System.State.{ControllerOps, initial_cfr_values, isr_size, send}
use aim_simulator.System.AddrMap.{apply_addr_mapp, set_bank, set_channel}
use aim_simulator.System.Fanout.{
  Sys, mask_bits, column_count, prepare, deliver, issue_to, each_channel, each_column, issue_masked,
  each_controller, issue_barrier, decode_aim, decode,
}
use aim_simulator.System.Tick.{
  drain_channel, drain_channels, finish_front, decode_front, advance, receive, call_back,
  call_backs, tick_controllers, tick_memory, tick,
}
use aim_simulator.System.Accounting.{Issues, stall_each, issue_masked-Issues}
use aim_simulator.System.Admission.{IsWithin, send_admission}
use aim_simulator.System.Fifo.{Pops, tick-Pops}
use aim_simulator.System.Plan.{columns, issue_columns, issue_masked-columns}
use aim_simulator.System.Responses.{Answers, notice, call_backs-Answers, call_backs-stray}
use aim_simulator.Tests.Device.{gddr6}

-- A controller that takes every request and calls back all it has at the next tick.
abbrev pub eager_ops : ControllerOps
eager_ops = record {
  Controller = List Request;
  Dram = ℕ;
  send = λ c r. ok (c ++ r ∷ [], r, true);
  tick = λ d c. ok (d, [], c);
  dram_tick = suc;
  clock_ratio = λ c. 1;
}

abbrev pub value_of : {A : Type 0} → Result A → A → A
value_of (ok a) b = a
value_of (err e) b = b

-- Writes to the global buffer, for two columns of the channels 0 and 1.
abbrev gb_request : Request
gb_request = record default_request {
  type = aim;
  opcode = isr_wr_gb;
  host_req_id = pos 4;
  opsize = pos 2;
  channel_mask = pos 3221225472;
  callback = host_callback;
}

abbrev pub sync_request : Request
sync_request = record default_request {
  type = aim;
  opcode = isr_sync;
  host_req_id = pos 4;
  channel_mask = pos 1;
  callback = host_callback;
}

abbrev pub start : Request → Sys eager_ops gddr6
start r = record {
  clk = 0;
  dram = 0;
  controllers = [] ∷ [] ∷ [];
  request_queue = r ∷ [];
  remaining = replicate 32 [];
  next_aim_req_id = pos 0;
  stalled = pos 0;
  cfr_values = initial_cfr_values;
  num_rw_requests = λ t m. 0;
  num_aim_requests = λ p. 0;
  isr_queue_full = 0;
}

abbrev after_issue : Sys eager_ops gddr6 × Bool
after_issue =
    value_of (issue_masked eager_ops gddr6 (start gb_request) gb_request) (start gb_request, false)

issue_masked-Issues_example :
    Issues eager_ops gddr6
      (start gb_request)
      after_issue.0
      (column_count gb_request * count_set_bit (mask_bits gb_request))
      (column_count gb_request
        * count_set_bit (mask_bits gb_request)
        * stall_each eager_ops gddr6 isr_wr_gb_info)
unfolding issue_masked each_column each_channel issue_to apply_addr_mapp set_channel set_bank
    deliver count_set_bit count_from find_first_channel_index find_from
    convert_aim_opcode_to_aim_isr prepare
issue_masked-Issues_example =
    issue_masked-Issues eager_ops gddr6 (start gb_request) gb_request {isr = isr_wr_gb_info}
      {t = after_issue.0} {sent = after_issue.1} refl refl

issue_masked-columns_example : issue_masked eager_ops gddr6 (start gb_request) gb_request ≡ (
    issue_columns eager_ops gddr6 isr_wr_gb_info gb_request
      (channels (mask_bits gb_request))
      (columns gb_request)
      (record {
        sys = start gb_request;
        req = prepare initial_cfr_values isr_wr_gb_info gb_request;
        all_sent = true;
      })
    >>= λ f. ok (f.sys, f.all_sent))
unfolding convert_aim_opcode_to_aim_isr
issue_masked-columns_example =
    issue_masked-columns eager_ops gddr6 isr_wr_gb_info gb_request (start gb_request) refl
      (omega arith) refl

-- The state and the callbacks after a tick that decodes a barrier.
abbrev after_tick : Sys eager_ops gddr6 × List Request
after_tick = value_of (tick eager_ops gddr6 (start sync_request)) (start sync_request, [])

tick-Pops_example : Pops eager_ops gddr6 (start sync_request) after_tick.0
unfolding tick drain_channels drain_channel advance decode_front decode decode_aim issue_barrier
    each_controller deliver finish_front tick_memory tick_controllers call_backs call_back receive
    count_set_bit count_from ◌+ℤ◌ ◌-ℤ◌
tick-Pops_example =
    tick-Pops eager_ops gddr6 (start sync_request) {t = after_tick.0} {called = after_tick.1} refl

abbrev answer : Request
answer = record sync_request { callback = dma_receive }

answer-Answers : Answers eager_ops gddr6 sync_request [] answer
answer-Answers = record { id = refl; to_dma = refl }

abbrev two_stalled : Sys eager_ops gddr6
two_stalled = record (start sync_request) { stalled = pos 2 }

call_backs-Answers_example :
    call_backs eager_ops gddr6 two_stalled (answer ∷ answer ∷ [])
    ≡ ok (
      record two_stalled { stalled = pos 0; request_queue = [] },
      notice eager_ops gddr6 sync_request [],
    )
call_backs-Answers_example =
    call_backs-Answers eager_ops gddr6 sync_request [] answer (answer ∷ []) two_stalled refl
      (answer-Answers, (answer-Answers, tt)) refl

-- A response to the host request with another number.
abbrev stray_answer : Request
stray_answer = record answer { host_req_id = pos 5 }

call_backs-stray_example :
    call_backs eager_ops gddr6 two_stalled (answer ∷ stray_answer ∷ answer ∷ [])
    ≡ err configuration_error
call_backs-stray_example =
    call_backs-stray eager_ops gddr6 sync_request [] (answer ∷ []) stray_answer (answer ∷ [])
      two_stalled 2 refl (answer-Answers, tt) refl (omega arith) refl (λ h. ground arith)

abbrev after_send : Sys eager_ops gddr6 × Bool
after_send = value_of (send (start sync_request) gb_request) (start sync_request, false)

send_admission_example :
    IsWithin after_send.0
    × (after_send.1 ≡ true
        → (1 < isr_size) × (after_send.0.request_queue ≡ sync_request ∷ gb_request ∷ []))
    × (after_send.1 ≡ false
        → (1 ≡ isr_size) × (after_send.0 ≡ record (start sync_request) { isr_queue_full = 1 }))
unfolding send
send_admission_example =
    send_admission (start sync_request) gb_request {t = after_send.0} {b = after_send.1}
      (omega arith) refl
