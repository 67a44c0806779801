-- ===== src/Controller/State.antt =====
-- src/dram_controller/impl/AiM_dram_controller.cpp: the state of `AiMDRAMController`, `send` and
-- `priority_send`.
use aim_simulator.Base.{
  ℕ, ◌+◌, ◌*◌, Bool, true, false, List, [], ◌∷◌, ◌++◌, ℤ, pos, minus_one, eqb_ℤ, ◌==◌, ◌&&◌, ◌||◌,
  not, Result, ok, err, runtime_error, ◌>>=◌, if◌then◌else◌,
}
use aim_simulator.Isr.Table.{
  RequestType, read, write, ref_all_bank, ref_single_bank, aim, max_type, Opcode, type_eq,
}
use aim_simulator.Request.{Request}
use aim_simulator.Request.Buffer.{ReqBuffer, size, enqueue}
use aim_simulator.Controller.Device.{DramOps}
use aim_simulator.Controller.Refresh.{Refresh}

pub record Controller : Type 0 where
  pub clk : ℕ
  pub channel_id : ℤ
  pub row_addr_idx : ℕ
  pub pending_reads : List Request
  pub pending_writes : List Request
  pub active_buffer : ReqBuffer Request
  pub priority_buffer : ReqBuffer Request
  pub read_buffer : ReqBuffer Request
  pub write_buffer : ReqBuffer Request
  pub aim_buffer : ReqBuffer Request
  pub is_write_mode : Bool
  pub is_reg_rw_mode : Bool
  pub num_rw_cycles : RequestType → ℤ
  pub num_aim_cycles : Opcode → ℤ
  pub num_commands : ℤ → ℕ
  pub num_idle_cycles : ℕ
  pub num_active_cycles : ℕ
  pub num_precharged_cycles : ℕ
  pub refresh : Refresh

abbrev pub empty_buffer : ℕ → ReqBuffer Request
empty_buffer n = record { buffer = []; max_size = n }

-- The controller after `setup`, for a channel.
abbrev pub initial_controller : ℤ → ℕ → Refresh → Controller
initial_controller ch row f = record {
  clk = 0;
  channel_id = ch;
  row_addr_idx = row;
  pending_reads = [];
  pending_writes = [];
  active_buffer = empty_buffer 32;
  priority_buffer = empty_buffer (512 * 3 + 32);
  read_buffer = empty_buffer 32;
  write_buffer = empty_buffer 32;
  aim_buffer = empty_buffer 32;
  is_write_mode = false;
  is_reg_rw_mode = false;
  num_rw_cycles = λ t. pos 0;
  num_aim_cycles = λ p. pos 0;
  num_commands = λ c. 0;
  num_idle_cycles = 0;
  num_active_cycles = 0;
  num_precharged_cycles = 0;
  refresh = f;
}

-- `std::find_if(m_write_buffer.begin(), …, compare_addr)` finds a write to the address.
abbrev pub has_addr : ℤ → List Request → Bool
has_addr a [] = false
has_addr a (w ∷ ws) = eqb_ℤ w.addr a || has_addr a ws

module _ (ops : DramOps) where
  -- `req.final_command`, by the tables of the device.
  unfoldable pub translate : Request → Result Request
  translate req =
      if type_eq req.type aim
      then (do c ← ops.aim_request_translation req.opcode; ok (record req { final_command = c }))
      else (do c ← ops.request_translation req.type; ok (record req { final_command = c }))

  -- The end of `send`: a request that does not fit gets its arrival time taken back.
  abbrev pub admitted : Controller × Bool → Request → Controller × Request × Bool
  admitted (c, true) req = (c, req, true)
  admitted (c, false) req = (c, record req { arrive = minus_one }, false)

  -- The buffer for the request's type.
  unfoldable pub enqueue_by_type :
      Controller → Request → RequestType → Result (Controller × Request × Bool)
  enqueue_by_type c req read = ok (
      admitted
        (record c { read_buffer = (enqueue c.read_buffer req).0 }, (enqueue c.read_buffer req).1)
        req)
  enqueue_by_type c req write = ok (
      admitted
        (record c { write_buffer = (enqueue c.write_buffer req).0 }, (enqueue c.write_buffer req).1)
        req)
  enqueue_by_type c req aim = ok (
      admitted
        (record c { aim_buffer = (enqueue c.aim_buffer req).0 }, (enqueue c.aim_buffer req).1) req)
  enqueue_by_type c req ref_all_bank = err runtime_error
  enqueue_by_type c req ref_single_bank = err runtime_error
  enqueue_by_type c req max_type = err runtime_error

  -- The guard of `send`: AiM and conventional requests do not mix in the buffers.
  abbrev pub is_blocked : Controller → Request → Bool
  is_blocked c req =
      if type_eq req.type aim
      then not (size c.write_buffer == 0) || not (size c.read_buffer == 0)
      else not (size c.aim_buffer == 0)

  -- `send`. A read of an address that a buffered write is going to write is served from there.
  unfoldable pub send : Controller → Request → Result (Controller × Request × Bool)
  send c req = if is_blocked c req then ok (c, req, false) else do
    r ← translate req
    if type_eq r.type read && has_addr r.addr c.write_buffer.buffer
        then (let r' = record r { depart = pos (c.clk + 1) } in
            ok (record c { pending_reads = c.pending_reads ++ r' ∷ [] }, r', true))
        else enqueue_by_type c (record r { arrive = pos c.clk }) r.type

  unfoldable pub priority_send : Controller → Request → Result (Controller × Bool)
  priority_send c req = do
    r ← translate req
    ok (
      record c { priority_buffer = (enqueue c.priority_buffer r).0 },
      (enqueue c.priority_buffer r).1,
    )
