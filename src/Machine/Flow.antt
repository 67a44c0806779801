-- ===== src/Machine/Flow.antt =====
-- The way of a host request through the program: from the trace to the queue of the memory system
-- and out of it (src/main.cpp, with the AiM trace frontend and the AiM memory system).
use mathlib.Core.List.{append_assoc, append-nil}
use aim_simulator.Base.{
  ℕ, zero, suc, ◌+◌, ◌*◌, ◌%◌, ◌≡◌, ap, sym, ◌∙◌, Bool, true, false, List, [], ◌∷◌, ◌++◌, ◌==◌,
  Result, ok, >>=-ok, length, if◌then◌else◌, Bool-cases, inl, inr, arith,
}
use aim_simulator.Request.{
  Request, Callback, no_callback, dma_receive, host_callback, checkpoint_callback, core_callback,
}
use aim_simulator.System.State.{ControllerOps, DramSystem, isr_size, send}
use aim_simulator.System.AddrMap.{Organization}
use aim_simulator.System.Admission.{counted}
use aim_simulator.System.Fifo.{IsLeft, tick-Pops}
use aim_simulator.System.Tick
use aim_simulator.Frontend.Trace
use aim_simulator.Frontend.Trace.{Trace, fetch, receive, receive_by, is_finished}
use aim_simulator.Frontend.Order.{Unsent, tick-Unsent}
use aim_simulator.Machine.Loop.{
  Machine, receive_all, tick_frontend, tick_memory_system, when_due, rounds,
}

module _ {C D : Type 0} where
  send-queue :
      (s : DramSystem C D) (req : Request) {t : DramSystem C D} {b : Bool}
      → send s req ≡ ok (t, b)
      → t.request_queue ≡ s.request_queue ++ (if b then req ∷ [] else [])
  unfolding send
  send-queue s req {t} {b} h = elim (Bool-cases (length s.request_queue == isr_size)) [
    | inl full ↦
        let h1 = rw full at h in
        let same : s.request_queue ≡ t.request_queue = ground arith in
        let refused : false ≡ b = ground arith in
        rw (← refused) (sym same ∙ sym (append-nil s.request_queue))
    | inr free ↦ let c = counted _ req req.type (rw free at h) in rw (c.1) (c.0)
  ]

  -- What a tick of the frontend took is at the end of the queue.
  tick-queue :
      (s : DramSystem C D) (t : Trace) {s' : DramSystem C D} {t' : Trace} {taken : List Request}
      → Trace.tick send s t ≡ ok (s', t', taken)
      → s'.request_queue ≡ s.request_queue ++ taken
  unfolding Trace.tick
  tick-queue s t {s'} {t'} {taken} h =
      let (t1, _, h1) = >>=-ok (fetch t) _ h in
      elim (Bool-cases t1.has_request) [
        | inr idle ↦
            let h2 = rw idle at h1 in
            let same : s.request_queue ≡ s'.request_queue = ground arith in
            let nothing : [] ≡ taken = ground arith in
            rw (← nothing) (sym same ∙ sym (append-nil s.request_queue))
        | inl held ↦
            let (x, e, h2) = >>=-ok (send s t1.request) _ (rw held at h1) in
            let took : (if x.1 then t1.request ∷ [] else []) ≡ taken = ground arith in
            let same : x.0.request_queue ≡ s'.request_queue = ground arith in
            rw (← took) (sym same ∙ send-queue s t1.request e)
      ]

receive_by-Unsent :
    (c : Callback) (t : Trace) (rs : List Request) → Unsent t rs → Unsent (receive_by c t) rs
receive_by-Unsent host_callback t rs u = record {
  rest = u.rest;
  ahead = u.ahead;
  behind = u.behind;
}
receive_by-Unsent no_callback t rs u = u
receive_by-Unsent dma_receive t rs u = u
receive_by-Unsent checkpoint_callback t rs u = u
receive_by-Unsent core_callback t rs u = u

module _ (ops : ControllerOps) (o : Organization) where
  receive_all-Unsent :
      (called : List Request) (t : Trace) (rs : List Request)
      → Unsent t rs
      → Unsent (receive_all ops o called t) rs
  receive_all-Unsent [] t rs u = u
  receive_all-Unsent (r ∷ called) t rs u =
      receive_all-Unsent called (receive r t) rs (receive_by-Unsent r.callback t rs u)

  -- The requests of a trace: those that have left the queue of the memory system, then those in it,
  -- then those that the frontend has not sent.
  pub record Flow (whole : List Request) (m : Machine ops o) : Type 0 where
    pub unsent : List Request
    pub path : IsLeft whole (m.system.request_queue ++ unsent)
    pub behind : Unsent m.trace unsent

  tick_frontend-Flow :
      (whole : List Request) (m m' : Machine ops o)
      → tick_frontend ops o m ≡ ok m'
      → Flow whole m
      → Flow whole m'
  unfolding tick_frontend
  tick_frontend-Flow whole m m' h f =
      let (x, e, h1) = >>=-ok (Trace.tick send m.system m.trace) _ h in
      let (left, split, u) = tick-Unsent send m.system x.0 m.trace x.1 f.unsent x.2 f.behind e in
      let (gone, path) = f.path in
      let last : record { trace = x.1; system = x.0 } ≡ m' = ground arith in
      let queue : m.system.request_queue ++ f.unsent ≡ x.0.request_queue ++ left =
        ap (λ l. m.system.request_queue ++ l) split
        ∙ sym (append_assoc m.system.request_queue x.2 left)
        ∙ ap (λ l. l ++ left) (sym (tick-queue m.system m.trace e)) in
      rw (← last)
        (record { unsent = left; path = (gone, path ∙ ap (λ l. gone ++ l) queue); behind = u })

  tick_memory_system-Flow :
      (whole : List Request) (m m' : Machine ops o)
      → tick_memory_system ops o m ≡ ok m'
      → Flow whole m
      → Flow whole m'
  unfolding tick_memory_system
  tick_memory_system-Flow whole m m' h f =
      let (x, e, h1) = >>=-ok (Tick.tick ops o m.system) _ h in
      let (popped, q) = tick-Pops ops o m.system e in
      let (gone, path) = f.path in
      let last : record { trace = receive_all ops o x.1 m.trace; system = x.0 } ≡ m' =
        ground arith in
      let queue : m.system.request_queue ++ f.unsent ≡ popped ++ (x.0.request_queue ++ f.unsent) =
        ap (λ l. l ++ f.unsent) q ∙ append_assoc popped x.0.request_queue f.unsent in
      rw (← last) (record {
        unsent = f.unsent;
        path = (
          gone ++ popped,
          path
              ∙ ap (λ l. gone ++ l) queue
              ∙ sym (append_assoc gone popped (x.0.request_queue ++ f.unsent)),
        );
        behind = receive_all-Unsent x.1 m.trace f.unsent f.behind;
      })

  when_due-Flow :
      (whole : List Request) (due : Bool) (m m' : Machine ops o) (next : Result (Machine ops o))
      → (next ≡ ok m' → Flow whole m → Flow whole m')
      → when_due ops o due m next ≡ ok m'
      → Flow whole m
      → Flow whole m'
  unfolding when_due
  when_due-Flow whole true m m' next step h f = step h f
  when_due-Flow whole false m m' next step h f = let last : m ≡ m' = ground arith in rw (← last) f

  -- In every run of the program's loop, however the controllers behave and whatever the clock
  -- ratios: the trace is what has left the queue of the memory system, then that queue, then what
  -- the frontend has still to send. No host request is lost, doubled or overtaken.
  pub rounds-Flow :
      (frontend_tick mem_tick n i : ℕ) (whole : List Request) (m m' : Machine ops o)
      (finished : Bool)
      → Flow whole m
      → rounds ops o frontend_tick mem_tick n i m ≡ ok (m', finished)
      → Flow whole m'
  unfolding rounds
  rounds-Flow ft mt zero i whole m m' b f h = let last : m ≡ m' = ground arith in rw (← last) f
  rounds-Flow ft mt (suc n) i whole m m' b f h =
      let j = i % (ft * mt) in
      let (m1, e1, h1) = >>=-ok (when_due ops o (j % mt == 0) m (tick_frontend ops o m)) _ h in
      let f1 = when_due-Flow whole _ m m1 _ (tick_frontend-Flow whole m m1) e1 f in
      elim (Bool-cases (is_finished m1.trace)) [
        | inl over ↦ let h2 = rw over at h1 in let last : m1 ≡ m' = ground arith in rw (← last) f1
        | inr on ↦
            let (m2, e2, h2) =
              >>=-ok (when_due ops o (j % ft == 0) m1 (tick_memory_system ops o m1)) _
                (rw on at h1) in
            let f2 = when_due-Flow whole _ m1 m2 _ (tick_memory_system-Flow whole m1 m2) e2 f1 in
            rounds-Flow ft mt n (i + 1) whole m2 m' b f2 h2
      ]
