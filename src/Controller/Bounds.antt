-- ===== src/Controller/Bounds.antt =====
-- The sizes of a controller's buffers (src/dram_controller/impl/AiM_dram_controller.cpp).
use aim_simulator.Base.{
  ℕ, ◌≤◌, ◌≡◌, refl, ◌∙◌, Bool, true, false, [], ◌∷◌, ◌++◌, Option, none, some, ok, if◌then◌else◌,
  arith, Bool-cases, inl, inr, not, ◌&&◌, length-set, length-erase_at-le, pos, ◌+ℤ◌, eqb_ℤ, >>=-ok,
}
use aim_simulator.Isr.Table.{is_barrier, type_eq, aim}
use aim_simulator.Request.{Request, is_reader}
use aim_simulator.Request.Buffer.{ReqBuffer, size, enqueue, remove, IsBounded, enqueue-IsBounded}
use aim_simulator.Controller.Device.{DramOps}
use aim_simulator.Controller.State.{Controller}
use aim_simulator.Controller.Schedule.{
  BufferId, active_id, priority_id, read_id, write_id, aim_id, Found, get_buffer, set_buffer,
}
use aim_simulator.Controller.Tick.{
  remove_from, keep_at, progress, depart, issue_request, finish_barrier, serve, add_cycles,
  with_issue, with_mode, next_mode, count_command, is_idle, requires_reg_rw_mode,
}
use aim_simulator.Controller.Frames.{SameRequests, SameRequests-size, Resched}

-- A buffer that holds no more than it did, under the same limit.
pub record NoMore (b c : ReqBuffer Request) : Type 0 where
  pub fewer : size c ≤ size b
  pub limit : c.max_size ≡ b.max_size

-- `e` has no more requests than `c` in any buffer but the active one, which stays within its bound.
pub record Shrinks (c e : Controller) : Type 0 where
  pub active : IsBounded c.active_buffer → IsBounded e.active_buffer
  pub priority : NoMore c.priority_buffer e.priority_buffer
  pub reads : NoMore c.read_buffer e.read_buffer
  pub writes : NoMore c.write_buffer e.write_buffer
  pub aims : NoMore c.aim_buffer e.aim_buffer

pub NoMore-refl : (b : ReqBuffer Request) → NoMore b b
NoMore-refl b = record { fewer = omega arith; limit = refl }

NoMore-trans : (a b c : ReqBuffer Request) → NoMore a b → NoMore b c → NoMore a c
NoMore-trans a b c p q = record {
  fewer = omega (arith, p.fewer, q.fewer);
  limit = q.limit ∙ p.limit;
}

pub NoMore-IsBounded : (b c : ReqBuffer Request) → NoMore b c → IsBounded b → IsBounded c
NoMore-IsBounded b c p h = omega (arith, p.fewer, p.limit, h)

SameRequests-NoMore : (b c : ReqBuffer Request) → SameRequests b c → NoMore b c
SameRequests-NoMore b c p = record {
  fewer = omega (arith, SameRequests-size b c p);
  limit = p.limit;
}

Shrinks-refl : (c : Controller) → Shrinks c c
Shrinks-refl c = record {
  active = λ h. h;
  priority = NoMore-refl _;
  reads = NoMore-refl _;
  writes = NoMore-refl _;
  aims = NoMore-refl _;
}

pub Shrinks-same :
    (c e : Controller)
    → c.active_buffer ≡ e.active_buffer
    → c.priority_buffer ≡ e.priority_buffer
    → c.read_buffer ≡ e.read_buffer
    → c.write_buffer ≡ e.write_buffer
    → c.aim_buffer ≡ e.aim_buffer
    → Shrinks c e
Shrinks-same c e p q r s t = record {
  active = λ h. rw (← p) h;
  priority = rw (← q) (NoMore-refl _);
  reads = rw (← r) (NoMore-refl _);
  writes = rw (← s) (NoMore-refl _);
  aims = rw (← t) (NoMore-refl _);
}

pub Shrinks-trans : (c e f : Controller) → Shrinks c e → Shrinks e f → Shrinks c f
Shrinks-trans c e f p q = record {
  active = λ h. q.active (p.active h);
  priority = NoMore-trans _ _ _ p.priority q.priority;
  reads = NoMore-trans _ _ _ p.reads q.reads;
  writes = NoMore-trans _ _ _ p.writes q.writes;
  aims = NoMore-trans _ _ _ p.aims q.aims;
}

pub Resched-Shrinks : (c e : Controller) → Resched c e → Shrinks c e
Resched-Shrinks c e p = record {
  active = NoMore-IsBounded _ _ (SameRequests-NoMore _ _ p.active);
  priority = SameRequests-NoMore _ _ p.priority;
  reads = SameRequests-NoMore _ _ p.reads;
  writes = SameRequests-NoMore _ _ p.writes;
  aims = SameRequests-NoMore _ _ p.aims;
}

-- A smaller buffer in a buffer's place.
set_buffer-Shrinks :
    (id : BufferId) (b : ReqBuffer Request) (c : Controller)
    → NoMore (get_buffer id c) b
    → Shrinks c (set_buffer id b c)
set_buffer-Shrinks active_id b c h = record {
  active = NoMore-IsBounded _ _ h;
  priority = NoMore-refl _;
  reads = NoMore-refl _;
  writes = NoMore-refl _;
  aims = NoMore-refl _;
}
set_buffer-Shrinks priority_id b c h = record {
  active = λ h. h;
  priority = h;
  reads = NoMore-refl _;
  writes = NoMore-refl _;
  aims = NoMore-refl _;
}
set_buffer-Shrinks read_id b c h = record {
  active = λ h. h;
  priority = NoMore-refl _;
  reads = h;
  writes = NoMore-refl _;
  aims = NoMore-refl _;
}
set_buffer-Shrinks write_id b c h = record {
  active = λ h. h;
  priority = NoMore-refl _;
  reads = NoMore-refl _;
  writes = h;
  aims = NoMore-refl _;
}
set_buffer-Shrinks aim_id b c h = record {
  active = λ h. h;
  priority = NoMore-refl _;
  reads = NoMore-refl _;
  writes = NoMore-refl _;
  aims = h;
}

remove_from-Shrinks : (id : BufferId) (i : ℕ) (c : Controller) → Shrinks c (remove_from id i c)
unfolding remove
remove_from-Shrinks id i c =
    set_buffer-Shrinks id _ c (record { fewer = length-erase_at-le _ i; limit = refl })

activate-Shrinks :
    (c : Controller) (r : Request)
    → Shrinks c (record c { active_buffer = (enqueue c.active_buffer r).0 })
activate-Shrinks c r = record {
  active = enqueue-IsBounded c.active_buffer r;
  priority = NoMore-refl _;
  reads = NoMore-refl _;
  writes = NoMore-refl _;
  aims = NoMore-refl _;
}

module _ (ops : DramOps) where
  keep_at-Shrinks :
      (id : BufferId) (i : ℕ) (r : Request) (c : Controller) → Shrinks c (keep_at ops id i r c)
  keep_at-Shrinks id i r c =
      set_buffer-Shrinks id _ c
        (record { fewer = omega (arith, length-set (get_buffer id c).buffer i r); limit = refl })

  progress-Shrinks :
      (c : Controller) (id : BufferId) (i : ℕ) (r : Request) → Shrinks c (progress ops c id i r)
  unfolding progress
  progress-Shrinks c id i r =
      let c' = keep_at ops id i r c in
      let kept = keep_at-Shrinks id i r c in
      elim (Bool-cases (not (type_eq r.type aim) && ops.is_opening r.command)) [
        | inl t ↦ rw t (
            Shrinks-trans _ _ _ kept
              (Shrinks-trans _ _ _ (activate-Shrinks c' r) (remove_from-Shrinks id i _)))
        | inr t ↦ rw t kept
      ]

  add_cycles-Shrinks : (c : Controller) (r : Request) → Shrinks c (add_cycles c r)
  add_cycles-Shrinks c r = elim (Bool-cases (type_eq r.type aim)) [
    | inl t ↦ rw t (Shrinks-same c _ refl refl refl refl refl)
    | inr t ↦ rw t (Shrinks-same c _ refl refl refl refl refl)
  ]

  pending-Shrinks :
      (c : Controller) (reader : Bool) (r : Request)
      → Shrinks c (
          if reader
          then record c { pending_reads = c.pending_reads ++ r ∷ [] }
          else record c { pending_writes = c.pending_writes ++ r ∷ [] })
  pending-Shrinks c true r = Shrinks-same c _ refl refl refl refl refl
  pending-Shrinks c false r = Shrinks-same c _ refl refl refl refl refl

  depart-Shrinks :
      (c : Controller) (id : BufferId) (i : ℕ) (r : Request) (e : Controller)
      → depart ops c id i r ≡ ok e
      → Shrinks c e
  unfolding depart
  depart-Shrinks c id i r e h =
      let r' = record r { depart = pos c.clk +ℤ ops.command_latency r.command } in
      let (reader, _, h1) = >>=-ok (is_reader r') _ h in
      let c' =
        if reader
        then record c { pending_reads = c.pending_reads ++ r' ∷ [] }
        else record c { pending_writes = c.pending_writes ++ r' ∷ [] } in
      let last : remove_from id i (add_cycles c' r') ≡ e = ground arith in
      rw (← last) (
        Shrinks-trans _ _ _ (pending-Shrinks c reader r')
          (Shrinks-trans _ _ _ (add_cycles-Shrinks c' r') (remove_from-Shrinks id i _)))

  issue_request-Shrinks :
      (d d' : ops.Dram) (c e : Controller) (f : Found)
      → issue_request ops d c f ≡ ok (d', e)
      → Shrinks c e
  unfolding issue_request
  issue_request-Shrinks d d' c e f h =
      let (required, _, h1) = >>=-ok (requires_reg_rw_mode ops f.request) _ h in
      let r = with_issue ops c.clk (with_mode ops required c.is_reg_rw_mode f.request) in
      let c' = record c {
        is_reg_rw_mode = next_mode ops required c.is_reg_rw_mode;
        num_commands = count_command r.command c.num_commands;
      } in
      let start : Shrinks c c' = Shrinks-same c _ refl refl refl refl refl in
      elim (Bool-cases (eqb_ℤ r.command r.final_command)) [
        | inl t ↦
            let (c'', left, h2) = >>=-ok (depart ops c' f.buffer f.position r) _ (rw t at h1) in
            let last : c'' ≡ e = ground arith in
            rw (← last)
              (Shrinks-trans _ _ _ start (depart-Shrinks c' f.buffer f.position r c'' left))
        | inr t ↦
            let h2 = rw t at h1 in
            let last : progress ops c' f.buffer f.position r ≡ e = ground arith in
            rw (← last) (Shrinks-trans _ _ _ start (progress-Shrinks c' f.buffer f.position r))
      ]

  pub serve-Shrinks :
      (d d' : ops.Dram) (c e : Controller) (f : Option Found)
      → serve ops d (c, f) ≡ ok (d', e)
      → Shrinks c e
  unfolding serve finish_barrier
  serve-Shrinks d d' c e none h = elim (Bool-cases (is_idle ops c)) [
    | inl t ↦ let h' = rw t at h in ground arith
    | inr t ↦ let h' = rw t at h in ground arith
  ]
  serve-Shrinks d d' c e (some f) h = elim (Bool-cases (is_barrier f.request.opcode)) [
    | inl t ↦
        let h' = rw t at h in
        let last : finish_barrier ops c f ≡ e = ground arith in
        rw (← last) (
          Shrinks-trans _ _ _
            (Shrinks-same c
              (record c {
                pending_reads = c.pending_reads ++ record (f.request) { depart = pos c.clk } ∷ [];
              })
              refl refl refl refl refl)
            (remove_from-Shrinks f.buffer f.position _))
    | inr t ↦ issue_request-Shrinks d d' c e f (rw t at h)
  ]
