-- ===== src/Processor/Ticking.antt =====
-- A tick of a core with the cache (src/frontend/impl/processor/simpleO3/core.cpp, `tick`).
use mathlib.Core.Path.{subst}
use mathlib.Core.List.{append-nil}
use aim_simulator.Base.{
  ℕ, ◌+◌, ◌≤◌, ◌≡◌, refl, Bool, true, false, List, [], ◌∷◌, ◌++◌, minus_one, pos_part, eqb_ℤ, ◌==◌,
  ok, length, length-append, Bool-cases, inl, inr, arith,
}
use aim_simulator.Isr.Table.{read, write}
use aim_simulator.Request.{Request}
use aim_simulator.Processor.Window.{is_full}
use aim_simulator.Processor.Queue.{Entry, retired, insert-Represents}
use aim_simulator.Processor.Core.{
  Core, MemoryOps, core_request, send_load, issue_load, issue_writeback, finish_inst, tick,
}
use aim_simulator.Processor.Flow.{
  insert-ipc, Runs, Goes, Goes-stay, Goes-trans, next_inst-Goes, issue_bubbles-Goes,
  retire_insts-Runs, Ticked, ticked,
}

-- What a core relies on: in a good state of the memory, every request gets an answer, and the state
-- stays good.
pub record MemoryLaws (ops : MemoryOps) : Type 1 where
  pub IsGood : ops.Memory → Type 0
  pub translated : (m : ops.Memory) (r : Request) → IsGood m → IsGood (ops.translate m r).0
  pub answered :
      (m : ops.Memory) (r : Request)
      → IsGood m
      → (m' : ops.Memory) × (b : Bool) × (ops.send m r ≡ ok (m', b)) × IsGood m'

module _ (ops : MemoryOps) (laws : MemoryLaws ops) where
  open ops use {Memory}

  -- A load that the cache takes goes into the window.
  send_load-Goes :
      (c : Core) (m : Memory) (req : Request) (q : List Entry)
      → Runs c q
      → laws.IsGood m
      → is_full c.window ≡ false
      → (c' : Core) × (m' : Memory) × (on : Bool) × (added : List Entry) × (send_load ops c m req
          ≡ ok (c', m', on))
        × (length added ≤ 1)
        × Goes c c' q added
        × laws.IsGood m'
  unfolding send_load
  send_load-Goes c m req q r good free =
      let (m', b, e, good') = laws.answered m req good in
      elim (Bool-cases b) [
        | inr refused ↦
            (c, m', false, [], rw (e, refused) refl, omega arith, Goes-stay c q r, good')
        | inl sent ↦
            let (w, i, rep) = insert-Represents c.window q false req.addr r.window free in
            (
              record c { window = w; load_addr = minus_one },
              m',
              eqb_ℤ c.writeback_addr minus_one,
              (false, req.addr) ∷ [],
              rw (e, sent, i) refl,
              omega arith,
              record {
                runs = record { window = rep; trace = r.trace };
                same_ipc = insert-ipc c.window w false req.addr i;
                same_count = refl;
              },
              good',
            )
      ]

  issue_load-Goes :
      (c : Core) (m : Memory) (num : ℕ) (q : List Entry)
      → Runs c q
      → laws.IsGood m
      → num ≤ c.window.ipc
      → (c' : Core) × (m' : Memory) × (on : Bool) × (added : List Entry) × (issue_load ops c m num
          ≡ ok (c', m', on))
        × (num + length added ≤ c.window.ipc)
        × Goes c c' q added
        × laws.IsGood m'
  unfolding issue_load
  issue_load-Goes c m num q r good few = elim (Bool-cases (eqb_ℤ c.load_addr minus_one)) [
    | inl idle ↦ (c, m, true, [], rw idle refl, omega arith, Goes-stay c q r, good)
    | inr loads ↦ elim (Bool-cases (num == c.window.ipc)) [
      | inl all ↦ (c, m, false, [], rw (loads, all) refl, omega arith, Goes-stay c q r, good)
      | inr less ↦ elim (Bool-cases (is_full c.window)) [
        | inl full ↦
            (c, m, false, [], rw (loads, less, full) refl, omega arith, Goes-stay c q r, good)
        | inr free ↦
            let out = ops.translate m (core_request c c.load_addr read) in
            let moved = laws.translated m (core_request c c.load_addr read) good in
            elim (Bool-cases out.2) [
              | inr waits ↦ (
                c,
                out.0,
                false,
                [],
                rw (loads, less, free, waits) refl,
                omega arith,
                Goes-stay c q r,
                moved,
              )
              | inl done ↦
                  let (c', m', on, added, h, one, g, good') =
                    send_load-Goes c out.0 out.1 q r moved free in
                  (
                    c',
                    m',
                    on,
                    added,
                    rw (loads, less, free, done) h,
                    (let l = less in ground (arith, one)),
                    g,
                    good',
                  )
            ]
      ]
    ]
  ]

  issue_writeback-IsGood :
      (c : Core) (m : Memory)
      → laws.IsGood m
      → (m' : Memory) × (b : Bool) × (issue_writeback ops c m ≡ ok (m', b)) × laws.IsGood m'
  unfolding issue_writeback
  issue_writeback-IsGood c m good = elim (Bool-cases (eqb_ℤ c.writeback_addr minus_one)) [
    | inl idle ↦ (m, true, rw idle refl, good)
    | inr writes ↦
        let out = ops.translate m (core_request c c.writeback_addr write) in
        let moved = laws.translated m (core_request c c.writeback_addr write) good in
        elim (Bool-cases out.2) [
          | inr waits ↦ (out.0, false, rw (writes, waits) refl, moved)
          | inl done ↦
              let (m', b, e, good') = laws.answered out.0 out.1 moved in
              (m', b, rw (writes, done) e, good')
        ]
  ]

  finish_inst-Goes :
      (c : Core) (m : Memory) (q : List Entry)
      → Runs c q
      → laws.IsGood m
      → (c' : Core) × (m' : Memory) × (finish_inst ops c m ≡ ok (c', m'))
        × Goes c c' q []
        × laws.IsGood m'
  unfolding finish_inst
  finish_inst-Goes c m q r good =
      let (m', b, e, good') = issue_writeback-IsGood c m good in
      elim (Bool-cases b) [
        | inr refused ↦ (c, m', rw (e, refused) refl, Goes-stay c q r, good')
        | inl sent ↦
            let (c', h, g) = next_inst-Goes c q r in (c', m', rw (e, sent, h) refl, g, good')
      ]

  -- As long as the cache answers, a tick of a core never fails: it retires the oldest instructions
  -- that are ready, `ipc` at most, counts them, and puts new ones, `ipc` at most, behind the others.
  pub tick-Ticked :
      (c : Core) (m : Memory) (q : List Entry)
      → Runs c q
      → laws.IsGood m
      → (c' : Core) × (m' : Memory) × (tick ops c m ≡ ok (c', m')) × Ticked c c' q × laws.IsGood m'
  unfolding tick
  tick-Ticked c m q r good =
      let left = (retired c.window.ipc q).0 in
      let (c1, e1, r1, ipc1, count) = retire_insts-Runs c q r in
      let (c2, num, on, added, e2, n2, few2, g2) =
        issue_bubbles-Goes (pos_part c1.num_bubbles) c1 0 left r1 (omega arith) in
      elim (Bool-cases on) [
        | inr stops ↦ (
          c2,
          m,
          rw (e1, e2, stops) refl,
          ticked c c1 c2 q added (omega (arith, n2, few2, ipc1)) count g2,
          good,
        )
        | inl goes ↦
            let few2' : num ≤ c2.window.ipc = (let i = g2.same_ipc in omega (arith, few2, i)) in
            let (c3, m3, on3, more, e3, few3, g3, good3) =
              issue_load-Goes c2 m num (left ++ added) g2.runs good few2' in
            let g = Goes-trans c1 c2 c3 left added more g2 g3 in
            let len = length-append added more in
            let few : length (added ++ more) ≤ c.window.ipc =
              (let i = g2.same_ipc in omega (arith, n2, few3, ipc1, len, i)) in
            elim (Bool-cases on3) [
              | inr stops ↦ (
                c3,
                m3,
                rw (e1, e2, goes, e3, stops) refl,
                ticked c c1 c3 q (added ++ more) few count g,
                good3,
              )
              | inl on_ ↦
                  let (c4, m4, e4, g4, good4) =
                    finish_inst-Goes c3 m3 (left ++ (added ++ more)) g.runs good3 in
                  let whole = Goes-trans c1 c3 c4 left (added ++ more) [] g g4 in
                  (
                    c4,
                    m4,
                    rw (e1, e2, goes, e3, on_) e4,
                    ticked c c1 c4 q (added ++ more) few count
                        (subst (Goes c1 c4 left) (append-nil (added ++ more)) whole),
                    good4,
                  )
            ]
      ]
