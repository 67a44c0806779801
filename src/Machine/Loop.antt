-- ===== src/Machine/Loop.antt =====
-- src/main.cpp: the loop of the simulation, for the AiM trace frontend and the AiM memory system.
use aim_simulator.Base.{
  ℕ, zero, suc, ◌+◌, ◌*◌, ◌%◌, Bool, true, false, List, [], ◌∷◌, ◌==◌, Result, ok, ◌>>=◌,
  if◌then◌else◌,
}
use aim_simulator.Request.{Request}
use aim_simulator.System.State.{ControllerOps, send}
use aim_simulator.System.AddrMap.{Organization}
use aim_simulator.System.Fanout.{Sys}
use aim_simulator.System.Tick
use aim_simulator.Frontend.Trace
use aim_simulator.Frontend.Trace.{Trace, receive, is_finished}

module _ (ops : ControllerOps) (o : Organization) where
  pub record Machine : Type 0 where
    pub trace : Trace
    pub system : Sys ops o

  -- The callbacks of a tick that reach the frontend.
  abbrev pub receive_all : List Request → Trace → Trace
  receive_all [] t = t
  receive_all (r ∷ rs) t = receive_all rs (receive r t)

  unfoldable pub tick_frontend : Machine → Result Machine
  tick_frontend m = do
    (s, t, taken) ← Trace.tick send m.system m.trace
    ok (record { trace = t; system = s })

  unfoldable pub tick_memory_system : Machine → Result Machine
  tick_memory_system m = do
    (s, called) ← Tick.tick ops o m.system
    ok (record { trace = receive_all called m.trace; system = s })

  -- One half of a round, at the round `i` modulo the ratios.
  unfoldable pub when_due : Bool → Machine → Result Machine → Result Machine
  when_due true m next = next
  when_due false m next = ok m

  -- The rounds from `i` on, at most `n` of them, with the clock ratios of the frontend and of the
  -- memory system; whether the frontend has finished.
  unfoldable pub rounds : ℕ → ℕ → ℕ → ℕ → Machine → Result (Machine × Bool)
  rounds frontend_tick mem_tick zero i m = ok (m, is_finished m.trace)
  rounds frontend_tick mem_tick (suc n) i m = do
    let j = i % (frontend_tick * mem_tick)
    m1 ← when_due (j % mem_tick == 0) m (tick_frontend m)
    if is_finished m1.trace then ok (m1, true) else (do
      m2 ← when_due (j % frontend_tick == 0) m1 (tick_memory_system m1)
      rounds frontend_tick mem_tick n (i + 1) m2)
