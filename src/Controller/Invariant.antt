-- ===== src/Controller/Invariant.antt =====
-- The invariant of the controller (src/dram_controller/impl/AiM_dram_controller.cpp).
use aim_simulator.Base.{
  ℕ, ◌+◌, ◌≤◌, ◌≡◌, refl, ap, Bool, true, false, List, [], ◌∷◌, ◌++◌, ok, if◌then◌else◌, arith,
  Bool-cases, inl, inr, not, ◌==◌, ◌&&◌, ◌||◌, ◌⊎◌, ℤ, pos, >>=-ok,
}
use aim_simulator.Isr.Table.{
  RequestType, read, write, aim, ref_all_bank, ref_single_bank, max_type, type_eq,
}
use aim_simulator.Request.{Request}
use aim_simulator.Request.Buffer.{size, enqueue, IsBounded, enqueue-IsBounded}
use aim_simulator.Controller.Device.{DramOps}
use aim_simulator.Controller.Refresh.{Refresh, refresh_tick}
use aim_simulator.Controller.State.{
  Controller, initial_controller, translate, admitted, enqueue_by_type, is_blocked, has_addr, send,
  priority_send,
}
use aim_simulator.Controller.Schedule.{Watermarks, schedule_request}
use aim_simulator.Controller.Tick.{
  serve_completed_reqs, send_refreshes, tick_refresh, serve, count_cycle, tick,
}
use aim_simulator.Controller.Bounds.{
  Shrinks, NoMore-IsBounded, Resched-Shrinks, Shrinks-same, serve-Shrinks,
}
use aim_simulator.Controller.Search.{schedule_request-Outcome}

-- AiM requests in the AiM buffer, and conventional requests in the read or the write buffer, do not
-- wait together. The active and the priority buffer are left out.
abbrev pub IsExclusive : Controller → Type 0
IsExclusive c = (size c.aim_buffer ≡ 0) ⊎ ((size c.read_buffer ≡ 0) × (size c.write_buffer ≡ 0))

pub record IsController (c : Controller) : Type 0 where
  pub active : IsBounded c.active_buffer
  pub priority : IsBounded c.priority_buffer
  pub reads : IsBounded c.read_buffer
  pub writes : IsBounded c.write_buffer
  pub aims : IsBounded c.aim_buffer
  pub exclusive : IsExclusive c

pub initial_controller-IsController :
    (ch : ℤ) (row : ℕ) (f : Refresh) → IsController (initial_controller ch row f)
initial_controller-IsController ch row f = record {
  active = omega arith;
  priority = omega arith;
  reads = omega arith;
  writes = omega arith;
  aims = omega arith;
  exclusive = inl refl;
}

exclusive-less :
    (a r w a' r' w' : ℕ)
    → a' ≤ a
    → r' ≤ r
    → w' ≤ w
    → (a ≡ 0) ⊎ ((r ≡ 0) × (w ≡ 0))
    → (a' ≡ 0) ⊎ ((r' ≡ 0) × (w' ≡ 0))
exclusive-less a r w a' r' w' p q s (inl h) = inl (omega arith)
exclusive-less a r w a' r' w' p q s (inr h) = inr (omega (arith, h.0), omega (arith, h.1))

Shrinks-IsController : (c e : Controller) → Shrinks c e → IsController c → IsController e
Shrinks-IsController c e p h = record {
  active = p.active h.active;
  priority = NoMore-IsBounded _ _ p.priority h.priority;
  reads = NoMore-IsBounded _ _ p.reads h.reads;
  writes = NoMore-IsBounded _ _ p.writes h.writes;
  aims = NoMore-IsBounded _ _ p.aims h.aims;
  exclusive = exclusive-less _ _ _ _ _ _ p.aims.fewer p.reads.fewer p.writes.fewer h.exclusive;
}

admitted-same :
    (ops : DramOps) (c : Controller) (t : Bool) (req : Request) (x : Controller × Request × Bool)
    → admitted ops (c, t) req ≡ x
    → c ≡ x.0
admitted-same ops c true req x h = ap (λ y. y.0) h
admitted-same ops c false req x h = ap (λ y. y.0) h

module _ (ops : DramOps) where
  translate-type : (req r : Request) → translate ops req ≡ ok r → r.type ≡ req.type
  unfolding translate
  translate-type req r h = elim (Bool-cases (type_eq req.type aim)) [
    | inl t ↦
        let (c, _, h1) = >>=-ok (ops.aim_request_translation req.opcode) _ (rw t at h) in
        ground arith
    | inr t ↦
        let (c, _, h1) = >>=-ok (ops.request_translation req.type) _ (rw t at h) in ground arith
  ]

  pub priority_send-IsController :
      (c e : Controller) (req : Request) (t : Bool)
      → priority_send ops c req ≡ ok (e, t)
      → IsController c
      → IsController e
  unfolding priority_send
  priority_send-IsController c e req t h i =
      let (r, _, h1) = >>=-ok (translate ops req) _ h in
      let last : record c { priority_buffer = (enqueue c.priority_buffer r).0 } ≡ e =
        ground arith in
      rw (← last) record {
        active = i.active;
        priority = enqueue-IsBounded c.priority_buffer r i.priority;
        reads = i.reads;
        writes = i.writes;
        aims = i.aims;
        exclusive = i.exclusive;
      }

  send_refreshes-IsController :
      (c e : Controller) (rs : List Request)
      → send_refreshes ops c rs ≡ ok e
      → IsController c
      → IsController e
  unfolding send_refreshes
  send_refreshes-IsController c e [] h i = let last : c ≡ e = ground arith in rw (← last) i
  send_refreshes-IsController c e (r ∷ rs) h i =
      let (x, sent, h1) = >>=-ok (priority_send ops c r) _ h in
      let i' = priority_send-IsController c x.0 r x.1 sent i in
      elim (Bool-cases x.1) [
        | inl t ↦ send_refreshes-IsController x.0 e rs (rw t at h1) i'
        | inr t ↦ absurd (let h2 = rw t at h1 in ground arith)
      ]

  count_cycle-Shrinks : (d : ops.Dram) (c : Controller) → Shrinks c (count_cycle ops d c)
  count_cycle-Shrinks d c = elim (Bool-cases (ops.open_rows d == 0)) [
    | inl t ↦ rw t (Shrinks-same c _ refl refl refl refl refl)
    | inr t ↦ rw t (Shrinks-same c _ refl refl refl refl refl)
  ]

  -- A tick of the memory clock keeps the invariant.
  pub tick-IsController :
      (w : Watermarks) (d d' : ops.Dram) (c e : Controller) (called : List Request)
      → tick ops w d c ≡ ok (d', e, called)
      → IsController c
      → IsController e
  unfolding tick tick_refresh serve_completed_reqs
  tick-IsController w d d' c e called h i =
      let c1 = (serve_completed_reqs (record c { clk = c.clk + 1 })).0 in
      let i1 : IsController c1 = record {
        active = i.active;
        priority = i.priority;
        reads = i.reads;
        writes = i.writes;
        aims = i.aims;
        exclusive = i.exclusive;
      } in
      let (c2, refreshed, h1) = >>=-ok (tick_refresh ops c1) _ h in
      let i1' : IsController (record c1 { refresh = (refresh_tick c1.refresh c1.channel_id).0 }) =
        record {
          active = i.active;
          priority = i.priority;
          reads = i.reads;
          writes = i.writes;
          aims = i.aims;
          exclusive = i.exclusive;
        } in
      let i2 = send_refreshes-IsController _ c2 _ refreshed i1' in
      let s = schedule_request ops w d c2 in
      let found = schedule_request-Outcome ops d w c2 in
      let (x, served, h2) = >>=-ok (serve ops d s) _ h1 in
      let i3 = Shrinks-IsController _ _ (Resched-Shrinks _ _ found.changes) i2 in
      let i4 = Shrinks-IsController _ _ (serve-Shrinks ops d x.0 s.0 x.1 s.1 served) i3 in
      let last : count_cycle ops x.0 x.1 ≡ e = ground arith in
      rw (← last) (Shrinks-IsController _ _ (count_cycle-Shrinks x.0 x.1) i4)

  enqueue_by_type-IsController :
      (c e : Controller) (req r : Request) (t : RequestType) (b : Bool)
      → (if type_eq t aim
          then not (size c.write_buffer == 0) || not (size c.read_buffer == 0)
          else not (size c.aim_buffer == 0))
        ≡ false
      → enqueue_by_type ops c req t ≡ ok (e, r, b)
      → IsController c
      → IsController e
  unfolding enqueue_by_type
  enqueue_by_type-IsController c e req r read b free h i =
      let x = enqueue c.read_buffer req in
      let h1 : admitted ops (record c { read_buffer = x.0 }, x.1) req ≡ (e, r, b) = ground arith in
      let last : record c { read_buffer = x.0 } ≡ e = admitted-same ops _ x.1 req _ h1 in
      rw (← last) record {
        active = i.active;
        priority = i.priority;
        reads = enqueue-IsBounded c.read_buffer req i.reads;
        writes = i.writes;
        aims = i.aims;
        exclusive = inl (ground arith);
      }
  enqueue_by_type-IsController c e req r write b free h i =
      let x = enqueue c.write_buffer req in
      let h1 : admitted ops (record c { write_buffer = x.0 }, x.1) req ≡ (e, r, b) = ground arith in
      let last : record c { write_buffer = x.0 } ≡ e = admitted-same ops _ x.1 req _ h1 in
      rw (← last) record {
        active = i.active;
        priority = i.priority;
        reads = i.reads;
        writes = enqueue-IsBounded c.write_buffer req i.writes;
        aims = i.aims;
        exclusive = inl (ground arith);
      }
  enqueue_by_type-IsController c e req r aim b free h i =
      let x = enqueue c.aim_buffer req in
      let h1 : admitted ops (record c { aim_buffer = x.0 }, x.1) req ≡ (e, r, b) = ground arith in
      let last : record c { aim_buffer = x.0 } ≡ e = admitted-same ops _ x.1 req _ h1 in
      rw (← last) record {
        active = i.active;
        priority = i.priority;
        reads = i.reads;
        writes = i.writes;
        aims = enqueue-IsBounded c.aim_buffer req i.aims;
        exclusive = inr (ground arith, ground arith);
      }
  enqueue_by_type-IsController c e req r ref_all_bank b free h i = absurd (ground arith)
  enqueue_by_type-IsController c e req r ref_single_bank b free h i = absurd (ground arith)
  enqueue_by_type-IsController c e req r max_type b free h i = absurd (ground arith)

  -- `send` keeps the invariant, whether it takes the request or not.
  pub send-IsController :
      (c e : Controller) (req r : Request) (b : Bool)
      → send ops c req ≡ ok (e, r, b)
      → IsController c
      → IsController e
  unfolding send
  send-IsController c e req r b h i = elim (Bool-cases (is_blocked ops c req)) [
    | inl t ↦ let h1 = rw t at h in let last : c ≡ e = ground arith in rw (← last) i
    | inr t ↦
        let (q, translated, h1) = >>=-ok (translate ops req) _ (rw t at h) in
        let same = translate-type req q translated in
        elim (Bool-cases (type_eq q.type read && has_addr q.addr c.write_buffer.buffer)) [
          | inl u ↦
              let h2 = rw u at h1 in
              let last : record c {
                pending_reads = c.pending_reads ++ record q { depart = pos (c.clk + 1) } ∷ [];
              }
                  ≡ e =
                ground arith in
              rw (← last) (Shrinks-IsController c _ (Shrinks-same c _ refl refl refl refl refl) i)
          | inr u ↦
              enqueue_by_type-IsController c e (record q { arrive = pos c.clk }) r q.type b
                (rw same t) (rw u at h1) i
        ]
  ]
