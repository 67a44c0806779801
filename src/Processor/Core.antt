-- ===== src/Processor/Core.antt =====
-- src/frontend/impl/processor/simpleO3/core.h and core.cpp: a core, and its trace of instructions.
use Prim.Native.String.{String}
use aim_simulator.Base.{
  ℕ, zero, suc, ◌+◌, ◌%◌, Bool, true, false, List, [], ◌∷◌, ℤ, pos, minus_one, pos_part, ◌+ℤ◌, ◌-ℤ◌,
  eqb_ℤ, ltb_ℤ, leb, to_int32, ◌==◌, ◌&&◌, not, Result, ok, err, configuration_error, undefined,
  out_of_range, or_fail, ◌>>=◌, if◌then◌else◌, length, get_elem?,
}
use aim_simulator.Isr.Table.{RequestType, read, write, type_to_int}
use aim_simulator.Request.{Request, default_request, core_callback}
use aim_simulator.Frontend.Tokens.{tokenize}
use aim_simulator.Frontend.Numbers.{stoll}
use aim_simulator.Processor.Window.{InstWindow, inst_window, is_full, insert, retire, set_ready}

-- `Trace::Inst`.
pub record Inst : Type 0 where
  pub bubble_count : ℤ
  pub load_addr : ℤ
  pub store_addr : ℤ

-- `std::stoi`, whose result has 32 bits.
unfoldable pub stoi : String → Result ℤ
stoi s = do n ← stoll 10 s; if eqb_ℤ (to_int32 n) n then ok n else err out_of_range

-- The constructor of `Trace`, for a file with these lines: the loop's body and the loop.
unfoldable pub inst_of : List String → Result Inst
inst_of (bubbles ∷ load ∷ []) = do
  b ← stoi bubbles
  l ← stoll 10 load
  ok (record { bubble_count = b; load_addr = l; store_addr = minus_one })
inst_of (bubbles ∷ load ∷ store ∷ []) = do
  b ← stoi bubbles
  l ← stoll 10 load
  s ← stoll 10 store
  ok (record { bubble_count = b; load_addr = l; store_addr = s })
inst_of _ = err configuration_error

unfoldable pub read_trace : List String → Result (List Inst)
read_trace [] = ok []
read_trace (line ∷ lines) = do
  inst ← inst_of (tokenize b' ' line)
  insts ← read_trace lines
  ok (inst ∷ insts)

pub record Core : Type 0 where
  pub clk : ℕ
  pub id : ℤ
  pub insts : List Inst
  pub curr_trace_idx : ℕ
  pub window : InstWindow
  pub num_bubbles : ℤ
  pub load_addr : ℤ
  pub writeback_addr : ℤ
  pub num_expected_insts : ℕ
  pub last_mem_cycle : ℤ
  pub reached_expected_num_insts : Bool
  pub insts_retired : ℕ
  pub cycles_recorded : ℕ
  pub mem_access_cycles : ℤ

-- What a core uses of the address translation and of the cache, which the cores share.
-- `translate` may write to the request that it is handed.
pub record MemoryOps : Type 1 where
  pub Memory : Type 0
  pub translate : Memory → Request → Memory × Request × Bool
  pub send : Memory → Request → Result (Memory × Bool)

-- `get_next_inst`, into the fields of the core.
unfoldable pub next_inst : Core → Result Core
next_inst c = do
  inst ← or_fail (get_elem? c.insts c.curr_trace_idx) undefined
  ok (record c {
    curr_trace_idx = (c.curr_trace_idx + 1) % length c.insts;
    num_bubbles = inst.bubble_count;
    load_addr = inst.load_addr;
    writeback_addr = inst.store_addr;
  })

-- `Request(addr, type, m_id, m_callback)`.
abbrev pub core_request : Core → ℤ → RequestType → Request
core_request c addr type = record default_request {
  addr = addr;
  type = type;
  type_id = pos (type_to_int type);
  source_id = c.id;
  callback = core_callback;
}

-- The start of `tick`: the clock, and what the window retires.
unfoldable pub retire_insts : Core → Result Core
retire_insts c = do
  (w, n) ← retire c.window
  let reached = not c.reached_expected_num_insts && leb c.num_expected_insts (c.insts_retired + n)
  ok (record c {
    clk = c.clk + 1;
    window = w;
    insts_retired = c.insts_retired + n;
    reached_expected_num_insts = if reached then true else c.reached_expected_num_insts;
    cycles_recorded = if reached then c.clk + 1 else c.cycles_recorded;
  })

-- The loop that issues the instructions without memory, with `n` left; `num` have been inserted.
-- The last component says that `tick` goes on.
unfoldable pub issue_bubbles : ℕ → Core → ℕ → Result (Core × ℕ × Bool)
issue_bubbles zero c num = ok (c, num, true)
issue_bubbles (suc n) c num =
    if num == c.window.ipc
    then ok (c, num, false)
    else if is_full c.window
    then ok (c, num, false)
    else (do
      w ← insert c.window true minus_one
      issue_bubbles n (record c { window = w; num_bubbles = c.num_bubbles -ℤ pos 1 }) (num + 1))

module _ (ops : MemoryOps) where
  open ops use {Memory}

  -- The load, translated: it goes to the cache, and into the window.
  unfoldable pub send_load : Core → Memory → Request → Result (Core × Memory × Bool)
  send_load c m req = do
    (m', sent) ← ops.send m req
    if sent
        then (do
          w ← insert c.window false req.addr
          ok (record c { window = w; load_addr = minus_one }, m', eqb_ℤ c.writeback_addr minus_one))
        else ok (c, m', false)

  unfoldable pub issue_load : Core → Memory → ℕ → Result (Core × Memory × Bool)
  issue_load c m num =
      if eqb_ℤ c.load_addr minus_one
      then ok (c, m, true)
      else if num == c.window.ipc
      then ok (c, m, false)
      else if is_full c.window
      then ok (c, m, false)
      else (let out = ops.translate m (core_request c c.load_addr read) in
          if out.2 then send_load c out.0 out.1 else ok (c, out.0, false))

  unfoldable pub issue_writeback : Core → Memory → Result (Memory × Bool)
  issue_writeback c m =
      if eqb_ℤ c.writeback_addr minus_one
      then ok (m, true)
      else (let out = ops.translate m (core_request c c.writeback_addr write) in
          if out.2 then ops.send out.0 out.1 else ok (out.0, false))

  -- The rest of `tick` once the load is issued.
  unfoldable pub finish_inst : Core → Memory → Result (Core × Memory)
  finish_inst c m = do
    (m', sent) ← issue_writeback c m
    if sent then (do c' ← next_inst c; ok (c', m')) else ok (c, m')

  unfoldable pub tick : Core → Memory → Result (Core × Memory)
  tick c m = do
    c1 ← retire_insts c
    (c2, num, on) ← issue_bubbles (pos_part c1.num_bubbles) c1 0
    if on
        then (do
          (c3, m', on') ← issue_load c2 m num
          if on' then finish_inst c3 m' else ok (c3, m'))
        else ok (c2, m)

-- `std::max`.
abbrev pub max_ℤ : ℤ → ℤ → ℤ
max_ℤ a b = if ltb_ℤ a b then b else a

-- `receive`.
unfoldable pub receive : Core → Request → Result Core
receive c req = do
  w ← set_ready c.window req.addr
  let c' = record c { window = w }
  ok (
      if not (eqb_ℤ req.arrive minus_one)
        && ltb_ℤ c.last_mem_cycle req.depart
        && not c.reached_expected_num_insts
      then record c' {
        mem_access_cycles =
            c.mem_access_cycles +ℤ (req.depart -ℤ max_ℤ c.last_mem_cycle req.arrive);
        last_mem_cycle = req.depart;
      }
      else c')

-- The constructor of a core, on the trace that was read.
unfoldable pub simple_o3_core : ℤ → ℕ → ℕ → ℕ → List Inst → Result Core
simple_o3_core id ipc depth num_expected_insts insts = next_inst (record {
  clk = 0;
  id = id;
  insts = insts;
  curr_trace_idx = 0;
  window = inst_window ipc depth;
  num_bubbles = pos 0;
  load_addr = minus_one;
  writeback_addr = minus_one;
  num_expected_insts = num_expected_insts;
  last_mem_cycle = pos 0;
  reached_expected_num_insts = false;
  insts_retired = 0;
  cycles_recorded = 0;
  mem_access_cycles = pos 0;
})
