-- ===== src/Tests/Processor.antt =====
-- Concrete inputs for the theorems on the processor.
use aim_simulator.Base.{
  ◌==◌, if◌then◌else◌, ℕ, ◌+◌, ◌≡◌, refl, true, false, List, [], ◌∷◌, ◌++◌, map, pos, minus_one, ok,
  err, undefined, ◌⊎◌, arith,
}
use aim_simulator.Processor.Window.{InstWindow, insert, retire, set_ready}
use aim_simulator.Processor.Queue.{Entry, Represents, insert-Represents, retire-Represents}
use aim_simulator.Processor.Marking.{mark, set_ready-Represents}
use aim_simulator.Processor.Core.{Core, MemoryOps, tick}
use aim_simulator.Processor.Flow.{Runs, Ticked}
use aim_simulator.Processor.Ticking.{MemoryLaws, tick-Ticked}
use aim_simulator.Processor.Cache
use aim_simulator.Processor.Cache.{Llc}
use aim_simulator.Processor.Sound.{IsSound}
use aim_simulator.Processor.Answering.{Answered, PastEnd, send-IsSound, receive-IsSound}
use aim_simulator.Processor.Frontend.{Surroundings}
use aim_simulator.Isr.Table.{read, write}
use aim_simulator.Request.{Request, default_request}

-- A window of three slots whose two instructions lie around its end.
abbrev wrapped : InstWindow
wrapped = record {
  ipc = 2;
  depth = 3;
  load = 2;
  head_idx = 1;
  tail_idx = 2;
  ready_list = false ∷ false ∷ true ∷ [];
  addr_list = pos 64 ∷ pos 7 ∷ minus_one ∷ [];
}

abbrev held : List Entry
held = (true, minus_one) ∷ (false, pos 64) ∷ []

wrapped-Represents : Represents wrapped held
wrapped-Represents = record {
  readies = refl;
  addrs = refl;
  tail = omega arith;
  loaded = refl;
  room = omega arith;
  head = refl;
  slots = (refl, refl, (refl, refl, tt));
}

insert-Represents_example :
    (w : InstWindow) × (insert wrapped false (pos 128) ≡ ok w)
    × Represents w (held ++ (false, pos 128) ∷ [])
insert-Represents_example = insert-Represents wrapped held false (pos 128) wrapped-Represents refl

retire-Represents_example :
    (w : InstWindow) × (retire wrapped ≡ ok (w, 1)) × Represents w ((false, pos 64) ∷ [])
retire-Represents_example = retire-Represents wrapped held wrapped-Represents

set_ready-Represents_example :
    (w : InstWindow) × (set_ready wrapped (pos 64) ≡ ok w) × Represents w (map (mark (pos 64)) held)
set_ready-Represents_example = set_ready-Represents wrapped held (pos 64) wrapped-Represents

-- A cache that takes every request, and no translation.
abbrev counting : MemoryOps
counting = record { Memory = ℕ; translate = λ m r. (m, r, true); send = λ m r. ok (m + 1, true) }

abbrev core : Core
core = record {
  clk = 0;
  id = pos 0;
  insts = record { bubble_count = pos 1; load_addr = pos 64; store_addr = minus_one } ∷ [];
  curr_trace_idx = 0;
  window = wrapped;
  num_bubbles = pos 1;
  load_addr = pos 192;
  writeback_addr = minus_one;
  num_expected_insts = 10;
  last_mem_cycle = pos 0;
  reached_expected_num_insts = false;
  insts_retired = 0;
  cycles_recorded = 0;
  mem_access_cycles = pos 0;
}

core-Runs : Runs core held
core-Runs = record { window = wrapped-Represents; trace = omega arith }

abbrev counting_laws : MemoryLaws counting
counting_laws = record {
  IsGood = λ m. Unit;
  translated = λ m r h. tt;
  answered = λ m r h. (m + 1, true, refl, tt);
}

tick-Ticked_example :
    (c : Core) × (m : ℕ) × (tick counting core 0 ≡ ok (c, m))
    × Ticked core c held
    × MemoryLaws.IsGood counting_laws m
tick-Ticked_example = tick-Ticked counting counting_laws core 0 held core-Runs tt

-- A cache of two sets of one line each, whose only register waits for the line of address 64.
abbrev llc : Llc
llc = record {
  clk = 5;
  latency = 2;
  linesize_bytes = 64;
  associativity = 1;
  num_mshrs = 2;
  index_mask = 1;
  index_offset = 6;
  tag_offset = 7;
  cache_sets = λ i.
      if i == 1
      then record { node = 0; addr = pos 64; tag = pos 0; dirty = false; ready = false } ∷ []
      else [];
  mshrs = record { addr = pos 64; set_index = 1; node = 0 } ∷ [];
  receive_requests = λ a. [];
  miss_list = [];
  hit_list = [];
  next_node = 1;
  read_access = 1;
  write_access = 0;
  read_misses = 1;
  write_misses = 0;
  evictions = 0;
  mshr_unavailable = 0;
}

llc-IsSound : IsSound llc
llc-IsSound = record { room = omega arith; flights = (refl, omega arith, tt, tt) }

-- A write to another set, and the answer for the register.
abbrev llc_write : Request
llc_write = record default_request { addr = pos 128; type = write; source_id = pos 0 }

abbrev llc_answer : Request
llc_answer = record default_request { addr = pos 64; type = read; source_id = pos 0 }

send-IsSound_example :
    Answered (err undefined) llc llc_write ⊎ PastEnd (err undefined) llc llc_write
send-IsSound_example = send-IsSound (err undefined) llc llc_write llc-IsSound

receive-IsSound_example : (c : Llc) × (Cache.receive llc llc_answer ≡ ok c) × IsSound c
receive-IsSound_example = receive-IsSound llc llc_answer llc-IsSound

-- No translation, a memory that takes every request, and a zero past the end of every set.
abbrev plain : Surroundings
plain = record {
  Translation = ℕ;
  translate = λ t r. (t, r, true);
  Memory = ℕ;
  send = λ m r. ok (m + 1, true);
  end_read = ok false;
}
