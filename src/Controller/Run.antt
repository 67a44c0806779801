-- ===== src/Controller/Run.antt =====
-- Runs of a controller (src/dram_controller/impl/AiM_dram_controller.cpp): the calls of `send`,
-- `priority_send` and `tick` in any order.
use aim_simulator.Base.{ℕ, ◌≡◌, Bool, List, ℤ, ok}
use aim_simulator.Request.{Request}
use aim_simulator.Controller.Device.{DramOps}
use aim_simulator.Controller.Refresh.{Refresh}
use aim_simulator.Controller.State.{Controller, initial_controller, send, priority_send}
use aim_simulator.Controller.Schedule.{Watermarks}
use aim_simulator.Controller.Tick.{tick}
use aim_simulator.Controller.Invariant.{
  IsController, initial_controller-IsController, send-IsController, priority_send-IsController,
  tick-IsController,
}

module _ (ops : DramOps) (w : Watermarks) where
  -- One call that raises no exception, on a controller with its device.
  pub data Step : ops.Dram → Controller → ops.Dram → Controller → Type 0 where
    sending :
        {d : ops.Dram} {c e : Controller} (req r : Request) (t : Bool)
        → send ops c req ≡ ok (e, r, t)
        → Step d c d e
    urgent :
        {d : ops.Dram} {c e : Controller} (req : Request) (t : Bool)
        → priority_send ops c req ≡ ok (e, t)
        → Step d c d e
    ticking :
        {d d' : ops.Dram} {c e : Controller} (called : List Request)
        → tick ops w d c ≡ ok (d', e, called)
        → Step d c d' e

  pub data Run : ops.Dram → Controller → ops.Dram → Controller → Type 0 where
    done : {d : ops.Dram} {c : Controller} → Run d c d c
    step :
        {d d1 d' : ops.Dram} {c c1 e : Controller} → Step d c d1 c1 → Run d1 c1 d' e → Run d c d' e

  Step-IsController :
      {d d' : ops.Dram} {c e : Controller} → Step d c d' e → IsController c → IsController e
  Step-IsController (sending req r t h) i = send-IsController ops _ _ _ _ _ h i
  Step-IsController (urgent req t h) i = priority_send-IsController ops _ _ _ _ h i
  Step-IsController (ticking called h) i = tick-IsController ops w _ _ _ _ _ h i

  Run-IsController :
      {d d' : ops.Dram} {c e : Controller} → Run d c d' e → IsController c → IsController e
  Run-IsController done i = i
  Run-IsController (step s r) i = Run-IsController r (Step-IsController s i)

  -- Whatever calls it gets, a controller that starts from `setup` never has requests in the AiM buffer
  -- and in the read or the write buffer at the same time, and none of its five buffers holds more than
  -- one request over its limit. Conventional requests in the active buffer may wait beside AiM
  -- requests.
  pub reachable-IsController :
      (ch : ℤ) (row : ℕ) (f : Refresh) (d d' : ops.Dram) (e : Controller)
      → Run d (initial_controller ch row f) d' e
      → IsController e
  reachable-IsController ch row f d d' e r =
      Run-IsController r (initial_controller-IsController ch row f)
