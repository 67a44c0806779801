-- ===== src/Processor/Window.antt =====
-- src/frontend/impl/processor/simpleO3/core.h and core.cpp: `InstWindow`, the reorder buffer of a core.
use aim_simulator.Base.{
  ℕ, zero, suc, ◌+◌, ◌-◌, ◌%◌, Bool, true, false, List, ℤ, minus_one, eqb_ℤ, ◌==◌, ltb, Result, ok,
  err, undefined, out_of_range, or_fail, ◌>>=◌, if◌then◌else◌, length, get_elem?, set, replicate,
}

-- The window; `load` instructions, the oldest at `tail_idx`.
pub record InstWindow : Type 0 where
  pub ipc : ℕ
  pub depth : ℕ
  pub load : ℕ
  pub head_idx : ℕ
  pub tail_idx : ℕ
  pub ready_list : List Bool
  pub addr_list : List ℤ

-- The constructor.
abbrev pub inst_window : ℕ → ℕ → InstWindow
inst_window ipc depth = record {
  ipc = ipc;
  depth = depth;
  load = 0;
  head_idx = 0;
  tail_idx = 0;
  ready_list = replicate depth false;
  addr_list = replicate depth minus_one;
}

abbrev pub is_full : InstWindow → Bool
is_full w = w.load == w.depth

-- `v.at(i)`, which throws out of bounds.
abbrev pub at {ℓ} : {A : Type ℓ} → List A → ℕ → Result A
at v i = or_fail (get_elem? v i) out_of_range

-- `v.at(i) = a`.
abbrev pub write_at {ℓ} : {A : Type ℓ} → List A → ℕ → A → Result (List A)
write_at v i a = if ltb i (length v) then ok (set v i a) else err out_of_range

unfoldable pub insert : InstWindow → Bool → ℤ → Result InstWindow
insert w ready addr = do
  readies ← write_at w.ready_list w.head_idx ready
  addrs ← write_at w.addr_list w.head_idx addr
  ok (record w {
    ready_list = readies;
    addr_list = addrs;
    head_idx = (w.head_idx + 1) % w.depth;
    load = w.load + 1;
  })

-- The loop of `retire`, with `n` instructions that it may still retire.
unfoldable pub retire_loop : ℕ → InstWindow → ℕ → Result (InstWindow × ℕ)
retire_loop zero w num_retired = ok (w, num_retired)
retire_loop (suc n) w num_retired = if w.load == 0 then ok (w, num_retired) else (do
  ready ← at w.ready_list w.tail_idx
  if ready
      then retire_loop n (record w { tail_idx = (w.tail_idx + 1) % w.depth; load = w.load - 1 })
          (num_retired + 1)
      else ok (w, num_retired))

-- `retire`; an empty window retires nothing.
abbrev pub retire : InstWindow → Result (InstWindow × ℕ)
retire w = if w.load == 0 then ok (w, 0) else retire_loop w.ipc w 0

-- The loop of `set_ready`, with `n` rounds left.
unfoldable pub set_ready_loop : ℕ → ℕ → ℤ → InstWindow → Result InstWindow
set_ready_loop zero index addr w = ok w
set_ready_loop (suc n) index addr w = do
  a ← or_fail (get_elem? w.addr_list index) undefined
  let w' = if eqb_ℤ a addr then record w { ready_list = set w.ready_list index true } else w
  set_ready_loop n (if index + 1 == w'.depth then 0 else index + 1) addr w'

abbrev pub set_ready : InstWindow → ℤ → Result InstWindow
set_ready w addr = if w.load == 0 then ok w else set_ready_loop w.load w.tail_idx addr w
