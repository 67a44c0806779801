-- ===== src/Controller/Order.antt =====
-- Which request may be found (src/dram_controller/impl/AiM_dram_controller.cpp,
-- `schedule_request`).
use aim_simulator.Base.{ℕ, take, get_elem?, ◌≡◌, true, some}
use aim_simulator.Request.{Request}
use aim_simulator.Controller.Device.{DramOps}
use aim_simulator.Controller.State.{Controller}
use aim_simulator.Controller.Schedule.{Found}

module _ (ops : DramOps) (d : ops.Dram) where
  -- The command of `f` does not close the row of the active request `a` of `e`.
  abbrev pub SparesRow : Controller → Found → Request → Type 0
  SparesRow e f a = ¬ (
      (ops.is_closing f.request.command ≡ true)
      × (take e.row_addr_idx f.request.addr_vec ≡ take e.row_addr_idx a.addr_vec))

  -- `SparesRow` for every request of the active buffer.
  abbrev SparesAll : Controller → Found → Type 0
  SparesAll e f =
      (i : ℕ) (a : Request) → get_elem? e.active_buffer.buffer i ≡ some a → SparesRow e f a
