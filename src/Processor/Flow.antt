-- ===== src/Processor/Flow.antt =====
-- The instructions of a core, from its trace through the window
-- (src/frontend/impl/processor/simpleO3/core.cpp, `tick`).
use mathlib.Core.Path.{subst}
use mathlib.Core.List.{append_assoc, append-nil}
use native.Mathlib.Nat.{mod-lt}
use aim_simulator.Base.{
  ℕ, zero, suc, ◌+◌, ◌%◌, ◌≤◌, ◌<◌, ◌≡◌, refl, ◌∙◌, Bool, true, false, List, [], ◌∷◌, ◌++◌, ℤ, pos,
  minus_one, ◌-ℤ◌, leb, ◌==◌, ◌&&◌, not, ok, >>=-ok, if◌then◌else◌, length, get_elem?-lt,
  Bool-cases, inl, inr, arith,
}
use aim_simulator.Processor.Window.{InstWindow, write_at, at, is_full, insert, retire_loop, retire}
use aim_simulator.Processor.Queue.{Entry, Represents, retired, insert-Represents, retire-Represents}
use aim_simulator.Processor.Core.{Core, next_inst, retire_insts, issue_bubbles}

pub insert-ipc : (w w' : InstWindow) (b : Bool) (a : ℤ) → insert w b a ≡ ok w' → w'.ipc ≡ w.ipc
unfolding insert
insert-ipc w w' b a h =
    let (x, _, h1) = >>=-ok (write_at w.ready_list w.head_idx b) _ h in
    let (y, _, h2) = >>=-ok (write_at w.addr_list w.head_idx a) _ h1 in ground arith

retire_loop-ipc :
    (n : ℕ) (w w' : InstWindow) (num k : ℕ) → retire_loop n w num ≡ ok (w', k) → w'.ipc ≡ w.ipc
unfolding retire_loop
retire_loop-ipc zero w w' num k h = ground arith
retire_loop-ipc (suc n) w w' num k h = elim (Bool-cases (w.load == 0)) [
  | inl empty ↦ let h1 = rw empty at h in ground arith
  | inr some ↦
      let (b, _, h1) = >>=-ok (at w.ready_list w.tail_idx) _ (rw some at h) in
      elim (Bool-cases b) [
        | inl ready ↦ retire_loop-ipc n _ w' (num + 1) k (rw ready at h1)
        | inr waits ↦ let h2 = rw waits at h1 in ground arith
      ]
]

retire-ipc : (w w' : InstWindow) (k : ℕ) → retire w ≡ ok (w', k) → w'.ipc ≡ w.ipc
retire-ipc w w' k h = elim (Bool-cases (w.load == 0)) [
  | inl empty ↦ let h1 = rw empty at h in ground arith
  | inr some ↦ retire_loop-ipc w.ipc w w' 0 k (rw some at h)
]

-- A core whose window holds a queue, and whose trace goes on.
pub record Runs (c : Core) (q : List Entry) : Type 0 where
  pub window : Represents c.window q
  pub trace : c.curr_trace_idx < length c.insts

-- A part of a tick puts instructions at the end of the queue, and retires none.
pub record Goes (c c' : Core) (q added : List Entry) : Type 0 where
  pub runs : Runs c' (q ++ added)
  pub same_ipc : c'.window.ipc ≡ c.window.ipc
  pub same_count : c'.insts_retired ≡ c.insts_retired

pub Goes-stay : (c : Core) (q : List Entry) → Runs c q → Goes c c q []
Goes-stay c q r = record { runs = rw (append-nil q) r; same_ipc = refl; same_count = refl }

pub Goes-trans :
    (a b c : Core) (q added more : List Entry)
    → Goes a b q added
    → Goes b c (q ++ added) more
    → Goes a c q (added ++ more)
Goes-trans a b c q added more x y = record {
  runs = subst (Runs c) (append_assoc q added more) y.runs;
  same_ipc = y.same_ipc ∙ x.same_ipc;
  same_count = y.same_count ∙ x.same_count;
}

pub next_inst-Goes :
    (c : Core) (q : List Entry) → Runs c q → (c' : Core) × (next_inst c ≡ ok c') × Goes c c' q []
unfolding next_inst
next_inst-Goes c q r =
    let (inst, e) = get_elem?-lt c.insts c.curr_trace_idx r.trace in
    (
      record c {
        curr_trace_idx = (c.curr_trace_idx + 1) % length c.insts;
        num_bubbles = inst.bubble_count;
        load_addr = inst.load_addr;
        writeback_addr = inst.store_addr;
      },
      rw e refl,
      record {
        runs = rw (append-nil q) (record {
          window = r.window;
          trace = mod-lt (c.curr_trace_idx + 1) (let t = r.trace in omega arith);
        });
        same_ipc = refl;
        same_count = refl;
      },
    )

-- The instructions without memory.
pub issue_bubbles-Goes :
    (n : ℕ) (c : Core) (num : ℕ) (q : List Entry)
    → Runs c q
    → num ≤ c.window.ipc
    → (c' : Core) × (num' : ℕ) × (on : Bool) × (added : List Entry) × (issue_bubbles n c num
        ≡ ok (c', num', on))
      × (num' ≡ num + length added)
      × (num' ≤ c.window.ipc)
      × Goes c c' q added
unfolding issue_bubbles
issue_bubbles-Goes zero c num q r few = (c, num, true, [], refl, omega arith, few, Goes-stay c q r)
issue_bubbles-Goes (suc n) c num q r few = elim (Bool-cases (num == c.window.ipc)) [
  | inl all ↦ (c, num, false, [], rw all refl, omega arith, few, Goes-stay c q r)
  | inr less ↦ elim (Bool-cases (is_full c.window)) [
    | inl full ↦ (c, num, false, [], rw (less, full) refl, omega arith, few, Goes-stay c q r)
    | inr free ↦
        let (w, e, rep) = insert-Represents c.window q true minus_one r.window free in
        let c1 : Core = record c { window = w; num_bubbles = c.num_bubbles -ℤ pos 1 } in
        let ipc = insert-ipc c.window w true minus_one e in
        let one : Goes c c1 q ((true, minus_one) ∷ []) = (record {
          runs = record { window = rep; trace = r.trace };
          same_ipc = ipc;
          same_count = refl;
        }) in
        let fits : num + 1 ≤ w.ipc = rw ipc (ground arith) in
        let (c', num', on, added, h, count, within, g) =
          issue_bubbles-Goes n c1 (num + 1) (q ++ (true, minus_one) ∷ []) one.runs fits in
        (
          c',
          num',
          on,
          (true, minus_one) ∷ added,
          rw (less, free, e) h,
          omega (arith, count),
          subst (λ k. num' ≤ k) ipc within,
          Goes-trans c c1 c' q ((true, minus_one) ∷ []) added one g,
        )
  ]
]

pub retire_insts-Runs :
    (c : Core) (q : List Entry)
    → Runs c q
    → (c' : Core) × (retire_insts c ≡ ok c')
      × Runs c' (retired c.window.ipc q).0
      × (c'.window.ipc ≡ c.window.ipc)
      × (c'.insts_retired ≡ c.insts_retired + (retired c.window.ipc q).1)
unfolding retire_insts
retire_insts-Runs c q r =
    let (w, e, rep) = retire-Represents c.window q r.window in
    let n = (retired c.window.ipc q).1 in
    let reached =
      not c.reached_expected_num_insts && leb c.num_expected_insts (c.insts_retired + n) in
    (
      record c {
        clk = c.clk + 1;
        window = w;
        insts_retired = c.insts_retired + n;
        reached_expected_num_insts = if reached then true else c.reached_expected_num_insts;
        cycles_recorded = if reached then c.clk + 1 else c.cycles_recorded;
      },
      rw e refl,
      record { window = rep; trace = r.trace },
      retire-ipc c.window w _ e,
      refl,
    )

-- What a tick has done to a core whose window held `q`.
pub record Ticked (c c' : Core) (q : List Entry) : Type 0 where
  pub added : List Entry
  pub few : length added ≤ c.window.ipc
  pub runs : Runs c' ((retired c.window.ipc q).0 ++ added)
  pub count : c'.insts_retired ≡ c.insts_retired + (retired c.window.ipc q).1

pub ticked :
    (c c1 c' : Core) (q added : List Entry)
    → length added ≤ c.window.ipc
    → (c1.insts_retired ≡ c.insts_retired + (retired c.window.ipc q).1)
    → Goes c1 c' (retired c.window.ipc q).0 added
    → Ticked c c' q
ticked c c1 c' q added few count g = record {
  added = added;
  few = few;
  runs = g.runs;
  count = g.same_count ∙ count;
}
