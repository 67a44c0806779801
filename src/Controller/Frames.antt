-- ===== src/Controller/Frames.antt =====
-- What scheduling leaves alone in a controller
-- (src/dram_controller/impl/AiM_dram_controller.cpp, `schedule_request`).
use aim_simulator.Base.{
  ℕ, suc, ◌≡◌, refl, ap, ◌∙◌, Bool, true, false, List, [], ◌∷◌, map, length, Option, none, some,
  if◌then◌else◌, arith, get_elem?, minus_one,
}
use aim_simulator.Request.{Request}
use aim_simulator.Request.Buffer.{ReqBuffer, size}
use aim_simulator.Controller.Device.{DramOps}
use aim_simulator.Controller.State.{Controller}
use aim_simulator.Controller.Schedule.{
  BufferId, active_id, priority_id, read_id, write_id, aim_id, Found, get_buffer, set_buffer,
}

length-map {ℓ κ} :
    {A : Type ℓ} {B : Type κ} (f : A → B) (xs : List A) → length (map f xs) ≡ length xs
length-map f [] = refl
length-map f (x ∷ xs) = ap suc (length-map f xs)

-- A request but for its command.
abbrev pub uncommanded : Request → Request
uncommanded r = record r { command = minus_one }

-- Two buffers hold the same requests in the same order, but for their commands, under the same
-- limit.
pub record SameRequests (b c : ReqBuffer Request) : Type 0 where
  pub requests : map uncommanded c.buffer ≡ map uncommanded b.buffer
  pub limit : c.max_size ≡ b.max_size

-- `e` is `c` but for the commands of buffered requests and the write mode.
pub record Resched (c e : Controller) : Type 0 where
  pub clock : e.clk ≡ c.clk
  pub channel : e.channel_id ≡ c.channel_id
  pub row_level : e.row_addr_idx ≡ c.row_addr_idx
  pub reads_pending : e.pending_reads ≡ c.pending_reads
  pub writes_pending : e.pending_writes ≡ c.pending_writes
  pub active : SameRequests c.active_buffer e.active_buffer
  pub priority : SameRequests c.priority_buffer e.priority_buffer
  pub reads : SameRequests c.read_buffer e.read_buffer
  pub writes : SameRequests c.write_buffer e.write_buffer
  pub aims : SameRequests c.aim_buffer e.aim_buffer
  pub mode : e.is_reg_rw_mode ≡ c.is_reg_rw_mode
  pub rw_cycles : e.num_rw_cycles ≡ c.num_rw_cycles
  pub aim_cycles : e.num_aim_cycles ≡ c.num_aim_cycles
  pub commands : e.num_commands ≡ c.num_commands
  pub idle_cycles : e.num_idle_cycles ≡ c.num_idle_cycles
  pub active_cycles : e.num_active_cycles ≡ c.num_active_cycles
  pub precharged_cycles : e.num_precharged_cycles ≡ c.num_precharged_cycles
  pub refreshing : e.refresh ≡ c.refresh

pub SameRequests-refl : (b : ReqBuffer Request) → SameRequests b b
SameRequests-refl b = record { requests = refl; limit = refl }

pub SameRequests-size : (b c : ReqBuffer Request) → SameRequests b c → size c ≡ size b
SameRequests-size b c p =
    omega (
      arith,
      length-map uncommanded b.buffer,
      length-map uncommanded c.buffer,
      ap length p.requests,
    )

pub Resched-refl : (c : Controller) → Resched c c
Resched-refl c = record {
  clock = refl;
  channel = refl;
  row_level = refl;
  reads_pending = refl;
  writes_pending = refl;
  mode = refl;
  rw_cycles = refl;
  aim_cycles = refl;
  commands = refl;
  idle_cycles = refl;
  active_cycles = refl;
  precharged_cycles = refl;
  refreshing = refl;
  active = SameRequests-refl _;
  priority = SameRequests-refl _;
  reads = SameRequests-refl _;
  writes = SameRequests-refl _;
  aims = SameRequests-refl _;
}

SameRequests-trans :
    (a b c : ReqBuffer Request) → SameRequests a b → SameRequests b c → SameRequests a c
SameRequests-trans a b c p q = record {
  requests = q.requests ∙ p.requests;
  limit = q.limit ∙ p.limit;
}

Resched-trans : (c e f : Controller) → Resched c e → Resched e f → Resched c f
Resched-trans c e f p q = record {
  clock = q.clock ∙ p.clock;
  channel = q.channel ∙ p.channel;
  row_level = q.row_level ∙ p.row_level;
  reads_pending = q.reads_pending ∙ p.reads_pending;
  writes_pending = q.writes_pending ∙ p.writes_pending;
  mode = q.mode ∙ p.mode;
  rw_cycles = q.rw_cycles ∙ p.rw_cycles;
  aim_cycles = q.aim_cycles ∙ p.aim_cycles;
  commands = q.commands ∙ p.commands;
  idle_cycles = q.idle_cycles ∙ p.idle_cycles;
  active_cycles = q.active_cycles ∙ p.active_cycles;
  precharged_cycles = q.precharged_cycles ∙ p.precharged_cycles;
  refreshing = q.refreshing ∙ p.refreshing;
  active = SameRequests-trans _ _ _ p.active q.active;
  priority = SameRequests-trans _ _ _ p.priority q.priority;
  reads = SameRequests-trans _ _ _ p.reads q.reads;
  writes = SameRequests-trans _ _ _ p.writes q.writes;
  aims = SameRequests-trans _ _ _ p.aims q.aims;
}

-- A buffer of the same requests in a buffer's place.
pub set_buffer-Resched :
    (id : BufferId) (b : ReqBuffer Request) (c : Controller)
    → SameRequests (get_buffer id c) b
    → Resched c (set_buffer id b c)
set_buffer-Resched active_id b c h = record {
  clock = refl;
  channel = refl;
  row_level = refl;
  reads_pending = refl;
  writes_pending = refl;
  mode = refl;
  rw_cycles = refl;
  aim_cycles = refl;
  commands = refl;
  idle_cycles = refl;
  active_cycles = refl;
  precharged_cycles = refl;
  refreshing = refl;
  active = h;
  priority = SameRequests-refl _;
  reads = SameRequests-refl _;
  writes = SameRequests-refl _;
  aims = SameRequests-refl _;
}
set_buffer-Resched priority_id b c h = ground arith
set_buffer-Resched read_id b c h = ground arith
set_buffer-Resched write_id b c h = ground arith
set_buffer-Resched aim_id b c h = ground arith

-- A controller after a search that began in `c`, with what was found.
pub record Outcome (c : Controller) (r : Controller × Option Found) : Type 0 where
  pub changes : Resched c r.0
  pub in_place :
      (f : Found)
      → r.1 ≡ some f
      → get_elem? (get_buffer f.buffer r.0).buffer f.position ≡ some f.request

pub Outcome-none : (c : Controller) → Outcome c (c, none)
Outcome-none c = record { changes = Resched-refl c; in_place = λ f e. ground arith }

pub Outcome-after :
    (c e : Controller) (r : Controller × Option Found) → Resched c e → Outcome e r → Outcome c r
Outcome-after c e r p q = record {
  changes = Resched-trans c e r.0 p q.changes;
  in_place = q.in_place;
}

module _ (ops : DramOps) where
  -- A buffer after a search in it, with the request that it found.
  abbrev pub SetFound : Controller → BufferId → ReqBuffer Request → ℕ → Request → Type 0
  SetFound c id b i r = SameRequests (get_buffer id c) b × (get_elem? b.buffer i ≡ some r)

  get_buffer-set :
      (id : BufferId) (b : ReqBuffer Request) (c : Controller)
      → get_buffer id (set_buffer id b c) ≡ b
  get_buffer-set active_id b c = refl
  get_buffer-set priority_id b c = refl
  get_buffer-set read_id b c = refl
  get_buffer-set write_id b c = refl
  get_buffer-set aim_id b c = refl

  pub some_found :
      (c : Controller) (id : BufferId) (b : ReqBuffer Request) (i : ℕ) (r : Request) (t : Bool)
      → SetFound c id b i r
      → Outcome c (
        set_buffer id b c,
        if t then some (record { buffer = id; position = i; request = r }) else none,
      )
  some_found c id b i r true h = record {
    changes = set_buffer-Resched id b c h.0;
    in_place = λ f e.
        let e' : record { buffer = id; position = i; request = r } ≡ f = ground arith in
        rw (← e', get_buffer-set id b c) h.1;
  }
  some_found c id b i r false h = record {
    changes = set_buffer-Resched id b c h.0;
    in_place = λ f e. ground arith;
  }
