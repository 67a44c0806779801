-- ===== src/Controller/Schedule.antt =====
-- src/dram_controller/impl/AiM_dram_controller.cpp: `set_write_mode` and `schedule_request`.
use aim_simulator.Base.{
  ℕ, Bool, true, false, List, [], ◌∷◌, ℤ, eqb_ℤ, ◌==◌, ◌&&◌, ◌||◌, not, Option, some, none, take,
  if◌then◌else◌,
}
use aim_simulator.Isr.Table.{is_barrier}
use aim_simulator.Request.{Request}
use aim_simulator.Request.Buffer.{ReqBuffer, size}
use aim_simulator.Controller.Device.{DramOps}
use aim_simulator.Controller.Scheduler.{is_ready, refresh_command, get_best_request}
use aim_simulator.Controller.State.{Controller}

-- The comparisons with the watermarks, which are `float`s: whether a size is above the high one or
-- below the low one of a buffer's `max_size`.
pub record Watermarks : Type 0 where
  pub above_high : ℕ → ℕ → Bool
  pub below_low : ℕ → ℕ → Bool

-- The buffer that `req_buffer` points to.
pub data BufferId : Type 0 where
  active_id priority_id read_id write_id aim_id : BufferId

abbrev pub get_buffer : BufferId → Controller → ReqBuffer Request
get_buffer active_id c = c.active_buffer
get_buffer priority_id c = c.priority_buffer
get_buffer read_id c = c.read_buffer
get_buffer write_id c = c.write_buffer
get_buffer aim_id c = c.aim_buffer

abbrev pub set_buffer : BufferId → ReqBuffer Request → Controller → Controller
set_buffer active_id b c = record c { active_buffer = b }
set_buffer priority_id b c = record c { priority_buffer = b }
set_buffer read_id b c = record c { read_buffer = b }
set_buffer write_id b c = record c { write_buffer = b }
set_buffer aim_id b c = record c { aim_buffer = b }

-- A request that is found: its buffer, its position there, and the request.
pub record Found : Type 0 where
  pub buffer : BufferId
  pub position : ℕ
  pub request : Request

unfoldable pub next_write_mode : Watermarks → Controller → Bool
next_write_mode w c =
    if not c.is_write_mode
    then w.above_high (size c.write_buffer) c.write_buffer.max_size || size c.read_buffer == 0
    else not
        (w.below_low (size c.write_buffer) c.write_buffer.max_size && not (size c.read_buffer == 0))

unfoldable pub set_write_mode : Watermarks → Controller → Controller
set_write_mode w c = record c { is_write_mode = next_write_mode w c }

module _ (ops : DramOps) where
  open ops use {Dram, is_closing}

  abbrev pub if_ready : Dram → BufferId → Option (ℕ × Request) → Option Found
  if_ready d id none = none
  if_ready d id (some (i, r)) =
      if is_ready ops d r then some (record { buffer = id; position = i; request = r }) else none

  -- The scheduler's choice in a buffer, if it is ready.
  unfoldable pub find_best : Dram → BufferId → Controller → Controller × Option Found
  find_best d id c =
      let r = get_best_request ops d (get_buffer id c) in (set_buffer id r.0 c, if_ready d id r.1)

  -- The first request of a buffer, which learns its next command, if it is ready.
  abbrev pub front_of :
      Dram → BufferId → Controller → ReqBuffer Request → List Request → Controller × Option Found
  front_of d id c b [] = (c, none)
  front_of d id c b (r ∷ rs) =
      let r' = refresh_command ops d r in
      (set_buffer id (record b { buffer = r' ∷ rs }) c, if_ready d id (some (0, r')))

  -- The AiM buffer is served in order; a barrier needs no command.
  abbrev pub aim_front : Dram → Controller → List Request → Controller × Option Found
  aim_front d c [] = (c, none)
  aim_front d c (r ∷ rs) =
      if is_barrier r.opcode
      then (c, some (record { buffer = aim_id; position = 0; request = r }))
      else front_of d aim_id c c.aim_buffer (r ∷ rs)

  unfoldable pub find_general : Watermarks → Dram → Controller → Controller × Option Found
  find_general w d c =
      if not (size c.aim_buffer == 0)
      then aim_front d c c.aim_buffer.buffer
      else (let c' = set_write_mode w c in
          find_best d (if c'.is_write_mode then write_id else read_id) c')

  -- `rowgroup == _it_rowgroup`: the two addresses agree above the row.
  abbrev pub same_levels : List ℤ → List ℤ → Bool
  same_levels [] [] = true
  same_levels [] (y ∷ ys) = false
  same_levels (x ∷ xs) [] = false
  same_levels (x ∷ xs) (y ∷ ys) = eqb_ℤ x y && same_levels xs ys

  abbrev pub in_rowgroup : ℕ → Request → Request → Bool
  in_rowgroup n r s = same_levels (take n r.addr_vec) (take n s.addr_vec)

  unfoldable pub meets_active : ℕ → Request → List Request → Bool
  meets_active n r [] = false
  meets_active n r (s ∷ ss) = in_rowgroup n r s || meets_active n r ss

  -- A request found is dropped if its command would close the row of an active request.
  unfoldable pub guard_active : Controller → Option Found → Option Found
  guard_active c none = none
  guard_active c (some f) =
      if is_closing f.request.command
        && meets_active c.row_addr_idx f.request c.active_buffer.buffer
      then none
      else some f

  abbrev pub is_barrier_request : Option Found → Bool
  is_barrier_request none = false
  is_barrier_request (some f) = is_barrier f.request.opcode

  -- A barrier is returned at once, before the check of the active buffer.
  abbrev pub guarded_general : Controller × Option Found → Bool → Controller × Option Found
  guarded_general (c, f) true = (c, f)
  guarded_general (c, f) false = (c, guard_active c f)

  -- Past the active buffer: the priority buffer holds everything back while it is not empty.
  unfoldable pub find_other : Watermarks → Dram → Controller → Controller × Option Found
  find_other w d c =
      if not (size c.priority_buffer == 0)
      then (let r = front_of d priority_id c c.priority_buffer c.priority_buffer.buffer in
          (r.0, guard_active r.0 r.1))
      else (let r = find_general w d c in
          guarded_general r (not (size c.aim_buffer == 0) && is_barrier_request r.1))

  abbrev pub or_other : Watermarks → Dram → Controller × Option Found → Controller × Option Found
  or_other w d (c, none) = find_other w d c
  or_other w d (c, some f) = (c, guard_active c (some f))

  unfoldable pub schedule_request : Watermarks → Dram → Controller → Controller × Option Found
  schedule_request w d c = or_other w d (find_best d active_id c)
