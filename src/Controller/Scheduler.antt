-- ===== src/Controller/Scheduler.antt =====
-- src/dram_controller/impl/scheduler/generic_scheduler.cpp: the FRFCFS scheduler.
use aim_simulator.Base.{
  ℕ, ◌+◌, Bool, List, [], ◌∷◌, map, Option, none, some, xor, leb_ℤ, if◌then◌else◌,
}
use aim_simulator.Request.{Request}
use aim_simulator.Request.Buffer.{ReqBuffer}
use aim_simulator.Controller.Device.{DramOps}

module _ (ops : DramOps) where
  open ops use {Dram, get_preq_command, check_ready}

  abbrev pub is_ready : Dram → Request → Bool
  is_ready d r = check_ready d r.command r.addr_vec

  abbrev pub refresh_command : Dram → Request → Request
  refresh_command d r = record r { command = get_preq_command d r.final_command r.addr_vec }

  -- `compare`: whether the first of two requests is kept.
  unfoldable pub keeps_first : Dram → Request → Request → Bool
  unfolding xor
  keeps_first d r1 r2 =
      if xor (is_ready d r1) (is_ready d r2) then is_ready d r1 else leb_ℤ r1.arrive r2.arrive

  -- The loop of `get_best_request`: the candidate with its position, and the position of the next.
  unfoldable pub best_from : Dram → ℕ → Request → ℕ → List Request → ℕ × Request
  best_from d i r j [] = (i, r)
  best_from d i r j (next ∷ rest) =
      best_from d (if keeps_first d r next then i else j) (if keeps_first d r next then r else next)
        (j + 1) rest

  -- `get_best_request`: every request learns its next command; the position of the best one, if
  -- there is any.
  unfoldable pub best_of : Dram → List Request → Option (ℕ × Request)
  best_of d [] = none
  best_of d (r ∷ rest) = some (best_from d 0 r 1 rest)

  unfoldable pub get_best_request :
      Dram → ReqBuffer Request → ReqBuffer Request × Option (ℕ × Request)
  get_best_request d b =
      let rs = map (refresh_command d) b.buffer in (record b { buffer = rs }, best_of d rs)
