-- ===== src/Controller/Tick.antt =====
-- src/dram_controller/impl/AiM_dram_controller.cpp: `serve_completed_reqs` and `tick`, for a
-- controller without plugins. `tick` lists the requests that are called back.
use aim_simulator.Base.{
  ℕ, ◌+◌, Bool, false, List, [], ◌∷◌, ◌++◌, ℤ, pos, minus_one, ◌+ℤ◌, ◌-ℤ◌, eqb_ℤ, leb_ℤ, ◌==◌, ◌&&◌,
  ◌||◌, not, xor, Option, some, none, Result, ok, err, runtime_error, ◌>>=◌, length, set, keep_if,
  if◌then◌else◌,
}
use aim_simulator.Isr.Table.{aim, type_eq, opcode_eq, is_barrier}
use aim_simulator.Isr.Info.{opcode_requires_reg_rw_mod}
use aim_simulator.Request.{Request, is_reader}
use aim_simulator.Request.Buffer.{size, enqueue, remove}
use aim_simulator.System.State.{has_callback}
use aim_simulator.Controller.Device.{DramOps}
use aim_simulator.Controller.Refresh.{refresh_tick}
use aim_simulator.Controller.State.{Controller, priority_send}
use aim_simulator.Controller.Schedule.{
  Watermarks, BufferId, Found, get_buffer, set_buffer, schedule_request,
}

-- The first pending read: kept back if it is a barrier and writes are pending.
abbrev pub is_served : ℕ → List Request → Request → Bool
is_served clk writes r =
    leb_ℤ r.depart (pos clk) && (not (is_barrier r.opcode) || length writes == 0)

unfoldable pub serve_reads : ℕ → List Request → List Request → List Request × List Request
serve_reads clk writes [] = ([], [])
serve_reads clk writes (r ∷ rs) =
    if is_served clk writes r
    then (rs, if has_callback r.callback then r ∷ [] else [])
    else (r ∷ rs, [])

unfoldable pub serve_completed_reqs : Controller → Controller × List Request
serve_completed_reqs c =
    let r = serve_reads c.clk c.pending_writes c.pending_reads in
    (
      record c {
        pending_reads = r.0;
        pending_writes = keep_if (λ w. not (leb_ℤ w.depart (pos c.clk))) c.pending_writes;
      },
      r.1,
    )

-- The statistics by request.
abbrev pub add_cycles : Controller → Request → Controller
add_cycles c r =
    if type_eq r.type aim
    then record c {
      num_aim_cycles = λ p.
          if opcode_eq p r.opcode
          then c.num_aim_cycles p +ℤ (pos c.clk -ℤ r.issue)
          else c.num_aim_cycles p;
    }
    else record c {
      num_rw_cycles = λ t.
          if type_eq t r.type
          then c.num_rw_cycles t +ℤ (pos c.clk -ℤ r.issue)
          else c.num_rw_cycles t;
    }

abbrev pub count_command : ℤ → (ℤ → ℕ) → ℤ → ℕ
count_command c n k = if eqb_ℤ k c then n k + 1 else n k

-- A request leaves a buffer.
abbrev pub remove_from : BufferId → ℕ → Controller → Controller
remove_from id i c = set_buffer id (remove (get_buffer id c) i) c

module _ (ops : DramOps) where
  open ops use {Dram, is_opening}

  -- The refresh requests go to the priority buffer; one that does not fit is an exception.
  unfoldable pub send_refreshes : Controller → List Request → Result Controller
  send_refreshes c [] = ok c
  send_refreshes c (r ∷ rs) = do
    (c', sent) ← priority_send ops c r
    if sent then send_refreshes c' rs else err runtime_error

  unfoldable pub tick_refresh : Controller → Result Controller
  tick_refresh c =
      let r = refresh_tick c.refresh c.channel_id in send_refreshes (record c { refresh = r.0 }) r.1

  -- `requires_reg_RW_mode`.
  unfoldable pub requires_reg_rw_mode : Request → Result Bool
  requires_reg_rw_mode r =
      if type_eq r.type aim then opcode_requires_reg_rw_mod r.opcode else ok false

  -- The command that is issued: TMOD if the mode has to change first.
  abbrev pub with_mode : Bool → Bool → Request → Request
  with_mode required mode r = if xor required mode then record r { command = ops.tmod } else r

  abbrev pub next_mode : Bool → Bool → Bool
  next_mode required mode = if xor required mode then not mode else mode

  -- The request as it is issued, with the clock of its first command.
  abbrev pub with_issue : ℕ → Request → Request
  with_issue clk r = if eqb_ℤ r.issue minus_one then record r { issue = pos clk -ℤ pos 1 } else r

  -- The last command of a request.
  unfoldable pub depart : Controller → BufferId → ℕ → Request → Result Controller
  depart c id i r = do
    let r' = record r { depart = pos c.clk +ℤ ops.command_latency r.command }
    reader ← is_reader r'
    let c' =
        if reader
        then record c { pending_reads = c.pending_reads ++ r' ∷ [] }
        else record c { pending_writes = c.pending_writes ++ r' ∷ [] }
    ok (remove_from id i (add_cycles c' r'))

  -- The request stays where it is, as it is now.
  abbrev pub keep_at : BufferId → ℕ → Request → Controller → Controller
  keep_at id i r c =
      let b = get_buffer id c in set_buffer id (record b { buffer = set b.buffer i r }) c

  -- An activation moves a conventional request to the active buffer.
  unfoldable pub progress : Controller → BufferId → ℕ → Request → Controller
  progress c id i r =
      let c' = keep_at id i r c in
      if not (type_eq r.type aim) && is_opening r.command
      then remove_from id i (record c' { active_buffer = (enqueue c'.active_buffer r).0 })
      else c'

  -- Step 3 of `tick` for a request that is no barrier.
  unfoldable pub issue_request : Dram → Controller → Found → Result (Dram × Controller)
  issue_request d c f = do
    required ← requires_reg_rw_mode f.request
    let r = with_issue c.clk (with_mode required c.is_reg_rw_mode f.request)
    let c' = record c {
      is_reg_rw_mode = next_mode required c.is_reg_rw_mode;
      num_commands = count_command r.command c.num_commands;
    }
    let d' = ops.issue_command d r.command r.addr_vec
    if eqb_ℤ r.command r.final_command
        then (do c'' ← depart c' f.buffer f.position r; ok (d', c''))
        else ok (d', progress c' f.buffer f.position r)

  -- Step 3 of `tick` for ISR_EOC and ISR_SYNC.
  unfoldable pub finish_barrier : Controller → Found → Controller
  finish_barrier c f = remove_from f.buffer f.position (record c {
    pending_reads = c.pending_reads ++ record (f.request) { depart = pos c.clk } ∷ [];
  })

  abbrev pub is_idle : Controller → Bool
  is_idle c =
      size c.read_buffer == 0
      && size c.write_buffer == 0
      && size c.aim_buffer == 0
      && length c.pending_reads == 0
      && length c.pending_writes == 0

  unfoldable pub serve : Dram → Controller × Option Found → Result (Dram × Controller)
  serve d (c, none) =
      ok (d, if is_idle c then record c { num_idle_cycles = c.num_idle_cycles + 1 } else c)
  serve d (c, some f) =
      if is_barrier f.request.opcode then ok (d, finish_barrier c f) else issue_request d c f

  abbrev pub count_cycle : Dram → Controller → Controller
  count_cycle d c =
      if ops.open_rows d == 0
      then record c { num_precharged_cycles = c.num_precharged_cycles + 1 }
      else record c { num_active_cycles = c.num_active_cycles + 1 }

  unfoldable pub tick : Watermarks → Dram → Controller → Result (Dram × Controller × List Request)
  tick w d c = do
    let (c1, called) = serve_completed_reqs (record c { clk = c.clk + 1 })
    c2 ← tick_refresh c1
    (d', c3) ← serve d (schedule_request ops w d c2)
    ok (d', count_cycle d' c3, called)
