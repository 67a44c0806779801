-- ===== src/System/Fifo.antt =====
-- Host requests leave the queue from its head only, one after the other (`tick` and `receive` of
-- src/memory_system/impl/aim_DRAM_system.cpp).
use mathlib.Core.List.{append_assoc, head?}
use aim_simulator.Base.{
  ℕ, zero, suc, ◌+◌, ◌%◌, ◌≡◌, refl, sym, ap, ◌∙◌, List, [], ◌∷◌, ◌++◌, pos, ◌-ℤ◌, eqb_ℤ, ok,
  undefined, or_fail, >>=-ok, arith, length, get_elem?, Bool-cases, inl, inr, ◌==◌, ◌&&◌,
}
use aim_simulator.Mask.Bits.{max_channel_count}
use aim_simulator.Request.{
  Request, Callback, no_callback, dma_receive, host_callback, checkpoint_callback, core_callback,
}
use aim_simulator.System.State.{ControllerOps}
use aim_simulator.System.AddrMap.{Organization}
use aim_simulator.System.Fanout.{Sys, decode}
use aim_simulator.System.Tick.{
  Drain, drain_queue, drain_channel, drain_channels, finish_front, decode_front, advance, receive,
  call_back, call_backs, tick_controllers, tick_memory, tick,
}
use aim_simulator.System.Decoding.{SameQueue, decode-queue}

-- What is left of a queue after some requests have left from its head.
abbrev pub IsLeft : List Request → List Request → Type 0
IsLeft old new = (gone : List Request) × (old ≡ gone ++ new)

IsLeft-trans : (xs ys zs : List Request) → IsLeft xs ys → IsLeft ys zs → IsLeft xs zs
IsLeft-trans xs ys zs (a, p) (b, q) =
    (a ++ b, p ∙ ap (λ (l : List Request). a ++ l) q ∙ sym (append_assoc a b zs))

module _ (ops : ControllerOps) (o : Organization) where
  -- From `s` to `t` requests leave the queue from its head only.
  abbrev pub Pops : Sys ops o → Sys ops o → Type 0
  Pops s t = IsLeft s.request_queue t.request_queue

  Pops-same : (s t : Sys ops o) → SameQueue ops o s t → Pops s t
  Pops-same s t e = ([], sym e)

  drain_channel-queue :
      (ch : ℕ) (d : Drain ops o) (waiting : List Request) {e : Drain ops o}
      → drain_channel ops o ch d waiting ≡ ok e
      → SameQueue ops o d.sys e.sys
  unfolding drain_channel
  drain_channel-queue ch d [] h = ground arith
  drain_channel-queue ch d (req ∷ reqs) h =
      let (c, _, h1) = >>=-ok (or_fail (get_elem? d.sys.controllers ch) undefined) _ h in
      let (x, _, h2) = >>=-ok (drain_queue ops o c (req ∷ reqs)) _ h1 in ground arith

  drain_channels-queue :
      (n ch : ℕ) (d : Drain ops o) {e : Drain ops o}
      → drain_channels ops o n ch d ≡ ok e
      → SameQueue ops o d.sys e.sys
  unfolding drain_channels
  drain_channels-queue zero ch d h = ground arith
  drain_channels-queue (suc n) ch d h =
      let (w, _, h1) = >>=-ok (or_fail (get_elem? d.sys.remaining ch) undefined) _ h in
      let (d', e, h2) = >>=-ok (drain_channel ops o ch d w) _ h1 in
      drain_channels-queue n (ch + 1) d' h2 ∙ drain_channel-queue ch d w e

  finish_queue :
      (s : Sys ops o) (q : List Request) {t : Sys ops o} {l : List Request}
      → s.request_queue ≡ q
      → finish_front ops o s ≡ ok (t, l)
      → Pops s t
  unfolding finish_front
  finish_queue s [] e h = absurd (let h1 = rw (e, finish_front) at h in ground arith)
  finish_queue s (host ∷ hosts) e h = (host ∷ [], ground arith)

  finish_front-Pops :
      (s : Sys ops o) {t : Sys ops o} {l : List Request}
      → finish_front ops o s ≡ ok (t, l)
      → Pops s t
  finish_front-Pops s h = finish_queue s s.request_queue refl h

  decode_front-Pops :
      (s : Sys ops o) (q : List Request) {t : Sys ops o} {l : List Request}
      → decode_front ops o s q ≡ ok (t, l)
      → Pops s t
  unfolding decode_front
  decode_front-Pops s [] {t} h = Pops-same s t (ground arith)
  decode_front-Pops s (host ∷ hosts) {t} h =
      let (x, e, h1) = >>=-ok (decode ops o s host host.type) _ h in
      let same = decode-queue ops o s host host.type e in
      elim (Bool-cases (eqb_ℤ x.0.stalled (pos 0) && x.1)) [
        | inl done ↦
            IsLeft-trans _ _ _ (Pops-same s x.0 same) (finish_front-Pops x.0 (rw done at h1))
        | inr waits ↦
            let h2 = rw waits at h1 in
            let last : x.0 ≡ t = ground arith in rw (← last) (Pops-same s x.0 same)
      ]

  advance-Pops :
      (d : Drain ops o) {t : Sys ops o} {l : List Request}
      → advance ops o d ≡ ok (t, l)
      → Pops d.sys t
  unfolding advance
  advance-Pops d {t} h = elim (Bool-cases (eqb_ℤ d.sys.stalled (pos 0))) [
    | inr held ↦ let h1 = rw held at h in Pops-same d.sys t (ground arith)
    | inl free ↦
        let h1 = rw free at h in
        elim (Bool-cases d.was) [
          | inr fresh ↦ decode_front-Pops d.sys d.sys.request_queue (rw fresh at h1)
          | inl was ↦
              let h2 = rw was at h1 in
              elim (Bool-cases d.still) [
                | inr done ↦ finish_front-Pops d.sys (rw done at h2)
                | inl still ↦ let h3 = rw still at h2 in Pops-same d.sys t (ground arith)
              ]
        ]
  ]

  receive-Pops :
      (s : Sys ops o) (req : Request) {t : Sys ops o} {l : List Request}
      → receive ops o s req ≡ ok (t, l)
      → Pops s t
  unfolding receive
  receive-Pops s req {t} h =
      let (host, _, h1) = >>=-ok (or_fail (head? s.request_queue) undefined) _ h in
      elim (Bool-cases (eqb_ℤ req.host_req_id host.host_req_id)) [
        | inr other ↦ absurd (let h2 = rw other at h1 in ground arith)
        | inl same ↦
            let h2 = rw same at h1 in
            elim (Bool-cases (eqb_ℤ (s.stalled -ℤ pos 1) (pos 0))) [
              | inl last ↦
                  finish_front-Pops (record s { stalled = s.stalled -ℤ pos 1 }) (rw last at h2)
              | inr more ↦ let h3 = rw more at h2 in Pops-same s t (ground arith)
            ]
      ]

  call_back-Pops :
      (s : Sys ops o) (req : Request) (c : Callback) {t : Sys ops o} {l : List Request}
      → call_back ops o s req c ≡ ok (t, l)
      → Pops s t
  unfolding call_back
  call_back-Pops s req no_callback {t} h = Pops-same s t (ground arith)
  call_back-Pops s req dma_receive h = receive-Pops s req h
  call_back-Pops s req host_callback {t} h = Pops-same s t (ground arith)
  call_back-Pops s req checkpoint_callback {t} h = Pops-same s t (ground arith)
  call_back-Pops s req core_callback {t} h = Pops-same s t (ground arith)

  call_backs-Pops :
      (reqs : List Request) (s : Sys ops o) {t : Sys ops o} {l : List Request}
      → call_backs ops o s reqs ≡ ok (t, l)
      → Pops s t
  unfolding call_backs
  call_backs-Pops [] s {t} h = Pops-same s t (ground arith)
  call_backs-Pops (req ∷ reqs) s {t} h =
      let (x, e, h1) = >>=-ok (call_back ops o s req req.callback) _ h in
      let (y, e', h2) = >>=-ok (call_backs ops o x.0 reqs) _ h1 in
      let last : y.0 ≡ t = ground arith in
      IsLeft-trans _ _ _ (call_back-Pops s req req.callback e)
        (rw (← last) (call_backs-Pops reqs x.0 e'))

  tick_controllers-Pops :
      (n ch : ℕ) (s : Sys ops o) {t : Sys ops o} {l : List Request}
      → tick_controllers ops o n ch s ≡ ok (t, l)
      → Pops s t
  unfolding tick_controllers
  tick_controllers-Pops zero ch s {t} h = Pops-same s t (ground arith)
  tick_controllers-Pops (suc n) ch s {t} h =
      let (c, _, h1) = >>=-ok (or_fail (get_elem? s.controllers ch) undefined) _ h in
      let (x, _, h2) = >>=-ok (ops.tick s.dram c) _ h1 in
      let (y, e, h3) = >>=-ok (call_backs ops o _ x.2) _ h2 in
      let (z, e', h4) = >>=-ok (tick_controllers ops o n (ch + 1) y.0) _ h3 in
      let last : z.0 ≡ t = ground arith in
      IsLeft-trans _ _ _ (call_backs-Pops x.2 _ e)
        (rw (← last) (tick_controllers-Pops n (ch + 1) y.0 e'))

  tick_memory-Pops :
      (s : Sys ops o) {t : Sys ops o} {l : List Request}
      → tick_memory ops o s ≡ ok (t, l)
      → Pops s t
  unfolding tick_memory
  tick_memory-Pops s {t} h =
      let (c, _, h1) = >>=-ok (or_fail (get_elem? s.controllers 0) undefined) _ h in
      elim (Bool-cases (ops.clock_ratio c == 0)) [
        | inl wrong ↦ absurd (let h2 = rw wrong at h1 in ground arith)
        | inr fine ↦
            let h2 = rw fine at h1 in
            elim (Bool-cases (s.clk % ops.clock_ratio c == 0)) [
              | inl due ↦
                  tick_controllers-Pops (length s.controllers) 0
                    (record s { dram = ops.dram_tick s.dram }) (rw due at h2)
              | inr idle ↦ let h3 = rw idle at h2 in Pops-same s t (ground arith)
            ]
      ]

  -- Whatever the controllers do, a tick that does not fail takes host requests from the head of the
  -- queue only: none is lost from the middle, none overtakes another.
  pub tick-Pops :
      (s : Sys ops o) {t : Sys ops o} {called : List Request}
      → tick ops o s ≡ ok (t, called)
      → Pops s t
  unfolding tick
  tick-Pops s {t} h =
      let (d, e, h1) = >>=-ok (drain_channels ops o max_channel_count 0 _) _ h in
      let (x, e', h2) = >>=-ok (advance ops o d) _ h1 in
      let (y, e'', h3) = >>=-ok (tick_memory ops o x.0) _ h2 in
      let last : y.0.request_queue ≡ t.request_queue = ground arith in
      IsLeft-trans _ _ _ (Pops-same s d.sys (drain_channels-queue max_channel_count 0 _ e))
        (IsLeft-trans _ _ _ (advance-Pops d e') (rw (← last) (tick_memory-Pops x.0 e'')))
