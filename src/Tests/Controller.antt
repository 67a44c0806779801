-- ===== src/Tests/Controller.antt =====
-- Concrete inputs for the theorems on the channel controller.
use aim_simulator.Base.{
  not, ℕ, ◌+◌, ◌≡◌, refl, Bool, true, false, List, [], ◌∷◌, ℤ, pos, eqb_ℤ, ◌+ℤ◌, ◌-ℤ◌, xor, ltb,
  some, Result, ok, err, All, length, get_elem?, if◌then◌else◌, arith,
}
use aim_simulator.Isr.Table.{aim, type_eq, isr_mac_sbk, type_to_int, opcode_to_int}
use aim_simulator.Isr.Info.{opcode_requires_reg_rw_mod, convert_aim_opcode_to_aim_isr}
use aim_simulator.Request.{Request, default_request, is_reader}
use aim_simulator.Request.Buffer.{ReqBuffer, enqueue, remove}
use aim_simulator.Controller.Device.{DramOps}
use aim_simulator.Controller.Scheduler.{get_best_request, best_of}
use aim_simulator.Controller.Refresh.{refresh_tick}
use aim_simulator.Controller.State.{
  Controller, initial_controller, translate, enqueue_by_type, send,
}
use aim_simulator.Controller.Schedule.{
  Watermarks, aim_id, Found, find_best, find_general, find_other, guard_active, meets_active,
  schedule_request,
}
use aim_simulator.Controller.Tick.{
  serve_reads, serve_completed_reqs, send_refreshes, tick_refresh, requires_reg_rw_mode, depart,
  progress, issue_request, serve, tick,
}
use aim_simulator.Controller.Choice.{IsAsGood, get_best_request-IsAsGood}
use aim_simulator.Controller.Held.{held, count}
use aim_simulator.Controller.Conservation.{tick-held}
use aim_simulator.Controller.Frames.{Outcome}
use aim_simulator.Controller.Invariant.{IsController}
use aim_simulator.Controller.Mode.{issue_request-mode}
use aim_simulator.Controller.Run.{step, done, sending, ticking, reachable-IsController}
use aim_simulator.Controller.Search.{schedule_request-Outcome}

-- A device that is always ready and keeps the commands that it was sent.
abbrev ready_ops : DramOps
ready_ops = record {
  Dram = List ℤ;
  issue_command = λ d c v. c ∷ d;
  get_preq_command = λ d c v. c;
  check_ready = λ d c v. true;
  open_rows = length;
  is_opening = λ c. eqb_ℤ c (pos 0);
  is_closing = λ c. eqb_ℤ c (pos 2);
  command_latency = λ c. pos 4;
  tmod = pos 23;
  request_translation = λ t. ok (pos (type_to_int t));
  aim_request_translation = λ p. ok (pos (opcode_to_int p));
}

abbrev marks : Watermarks
marks = record { above_high = λ n m. ltb 26 n; below_low = λ n m. ltb n 6 }

abbrev value_of : {A : Type 0} → Result A → A → A
value_of (ok a) b = a
value_of (err e) b = b

-- A rank is refreshed at every third cycle.
abbrev start : Controller
start = initial_controller (pos 0) 3 (record {
  clk = pos 0;
  org_levels = 5;
  num_ranks = pos 1;
  nrefi = pos 3;
  next_refresh_cycle = pos 3;
})

abbrev mac_request : Request
mac_request = record default_request {
  type = aim;
  opcode = isr_mac_sbk;
  addr_vec = pos 0 ∷ pos 1 ∷ pos 2 ∷ pos 9 ∷ pos 3 ∷ [];
}

abbrev sent : Controller × Request × Bool
sent = value_of (send ready_ops start mac_request) (start, mac_request, false)

abbrev ticked : List ℤ × Controller × List Request
ticked = value_of (tick ready_ops marks [] sent.0) ([], start, [])

abbrev is_aim : Request → Bool
is_aim r = type_eq r.type aim

tick-held_example :
    held is_aim ticked.1
    ≡ held is_aim (serve_completed_reqs (record (sent.0) { clk = 1 })).0
      + count is_aim (refresh_tick sent.0.refresh (pos 0)).1
unfolding tick serve_completed_reqs serve_reads tick_refresh send_refreshes refresh_tick
    schedule_request find_best get_best_request best_of find_other find_general guard_active
    meets_active serve issue_request requires_reg_rw_mode opcode_requires_reg_rw_mod
    convert_aim_opcode_to_aim_isr depart is_reader progress remove send translate enqueue_by_type
    enqueue ◌+ℤ◌ ◌-ℤ◌ xor
tick-held_example =
    tick-held ready_ops is_aim marks [] ticked.0 sent.0 ticked.1 ticked.2 refl (omega arith)

reachable-IsController_example : IsController ticked.1
unfolding tick serve_completed_reqs serve_reads tick_refresh send_refreshes refresh_tick
    schedule_request find_best get_best_request best_of find_other find_general guard_active
    meets_active serve issue_request requires_reg_rw_mode opcode_requires_reg_rw_mod
    convert_aim_opcode_to_aim_isr depart is_reader progress remove send translate enqueue_by_type
    enqueue ◌+ℤ◌ ◌-ℤ◌ xor
reachable-IsController_example =
    reachable-IsController ready_ops marks (pos 0) 3 start.refresh [] ticked.0 ticked.1
      (step (sending mac_request sent.1 sent.2 refl) (step (ticking ticked.2 refl) done))

-- The request that is found there.
abbrev found : Found
found = record { buffer = aim_id; position = 0; request = record (sent.1) { command = pos 10 } }

-- A device that is not ready for reads, and on which the AiM command closes a row.
abbrev busy_ops : DramOps
busy_ops = record ready_ops {
  check_ready = λ d c v. not (eqb_ℤ c (pos 1));
  is_closing = λ c. eqb_ℤ c (pos 10);
}

-- A read of another bank is in the active buffer, while the AiM request is found.
abbrev active_read : Request
active_read = record default_request {
  addr_vec = pos 0 ∷ pos 1 ∷ pos 3 ∷ pos 4 ∷ pos 3 ∷ [];
  command = pos 1;
  final_command = pos 1;
}

abbrev with_active : Controller
with_active = record (sent.0) {
  active_buffer = record { buffer = active_read ∷ []; max_size = 32 };
}

schedule_request-Outcome_example : Outcome sent.0 (schedule_request ready_ops marks [] sent.0)
schedule_request-Outcome_example = schedule_request-Outcome ready_ops [] marks sent.0

abbrev issued : List ℤ × Controller
issued = value_of (issue_request ready_ops [] sent.0 found) ([], start)

issue_request-mode_example :
    (issued.1.is_reg_rw_mode ≡ false)
    × (issued.0
        ≡ ready_ops.issue_command []
            (if xor false false then pos 23 else pos 10)
            mac_request.addr_vec)
unfolding tick serve_completed_reqs serve_reads tick_refresh send_refreshes refresh_tick
    schedule_request find_best get_best_request best_of find_other find_general guard_active
    meets_active serve issue_request requires_reg_rw_mode opcode_requires_reg_rw_mod
    convert_aim_opcode_to_aim_isr depart is_reader progress remove send translate enqueue_by_type
    enqueue ◌+ℤ◌ ◌-ℤ◌ xor
issue_request-mode_example =
    issue_request-mode ready_ops [] issued.0 sent.0 issued.1 found false refl refl

abbrev two_requests : ReqBuffer Request
two_requests = record { buffer = mac_request ∷ default_request ∷ []; max_size = 32 }

get_best_request-IsAsGood_example :
    (i : ℕ) × (q : Request) × ((get_best_request ready_ops [] two_requests).1 ≡ some (i, q))
    × (get_elem? (get_best_request ready_ops [] two_requests).0.buffer i ≡ some q)
    × All (IsAsGood ready_ops [] q) (get_best_request ready_ops [] two_requests).0.buffer
get_best_request-IsAsGood_example =
    get_best_request-IsAsGood ready_ops [] two_requests mac_request (default_request ∷ []) refl
