-- ===== src/System/Tick.antt =====
-- src/memory_system/impl/aim_DRAM_system.cpp: `tick` and `receive`. Beside the new state they give
-- the host requests whose callbacks are called, in order.
use aim_simulator.Base.{
  ℕ, zero, suc, ◌+◌, ◌%◌, Bool, true, false, List, [], ◌∷◌, ◌++◌, pos, ◌-ℤ◌, eqb_ℤ, ◌==◌, ◌&&◌,
  ◌||◌, Result, ok, err, configuration_error, undefined, or_fail, ◌>>=◌, length, get_elem?, set,
  if◌then◌else◌,
}
use mathlib.Core.List.{head?, tail}
use aim_simulator.Mask.Bits.{max_channel_count}
use aim_simulator.Request.{
  Request, Callback, no_callback, dma_receive, host_callback, checkpoint_callback, core_callback,
}
use aim_simulator.System.State.{ControllerOps, has_callback}
use aim_simulator.System.AddrMap.{Organization}
use aim_simulator.System.Fanout.{Sys, decode}

module _ (ops : ControllerOps) (o : Organization) where
  open ops use {Controller, Dram}

  -- The inner loop over a queue of undelivered requests: it stops at the first that is refused.
  unfoldable pub drain_queue : Controller → List Request → Result (Controller × List Request)
  drain_queue c [] = ok (c, [])
  drain_queue c (req ∷ reqs) = do
    (c', req', sent) ← ops.send c req
    elim sent [ true ↦ drain_queue c' reqs | false ↦ ok (c', req' ∷ reqs) ]

  -- The state of the outer loop, with `was_AiM_request_remaining` and `is_AiM_request_remaining`.
  pub record Drain : Type 0 where
    pub sys : Sys ops o
    pub was : Bool
    pub still : Bool

  abbrev pub is_nonempty : List Request → Bool
  is_nonempty [] = false
  is_nonempty (r ∷ rs) = true

  -- One round of the outer loop; an empty queue leaves its controller alone.
  unfoldable pub drain_channel : ℕ → Drain → List Request → Result Drain
  drain_channel ch d [] = ok d
  drain_channel ch d (req ∷ reqs) = do
    let s = d.sys
    c ← or_fail (get_elem? s.controllers ch) undefined
    (c', left) ← drain_queue c (req ∷ reqs)
    ok (record {
      sys = record s { controllers = set s.controllers ch c'; remaining = set s.remaining ch left };
      was = true;
      still = d.still || is_nonempty left;
    })

  -- The outer loop, with `n` rounds left.
  unfoldable pub drain_channels : ℕ → ℕ → Drain → Result Drain
  drain_channels zero ch d = ok d
  drain_channels (suc n) ch d = do
    waiting ← or_fail (get_elem? d.sys.remaining ch) undefined
    d' ← drain_channel ch d waiting
    drain_channels n (ch + 1) d'

  -- `request_queue.front()`, its callback, and `request_queue.pop()`.
  unfoldable pub finish_front : Sys ops o → Result (Sys ops o × List Request)
  finish_front s = do
    host ← or_fail (head? s.request_queue) undefined
    ok (
      record s { request_queue = tail s.request_queue },
      if has_callback host.callback then host ∷ [] else [],
    )

  -- Decoding the request at the head of the queue.
  unfoldable pub decode_front : Sys ops o → List Request → Result (Sys ops o × List Request)
  decode_front s [] = ok (s, [])
  decode_front s (host ∷ hosts) = do
    (s', sent) ← decode ops o s host host.type
    if eqb_ℤ s'.stalled (pos 0) && sent then finish_front s' else ok (s', [])

  -- The `if (stalled_AiM_requests == 0)` block.
  unfoldable pub advance : Drain → Result (Sys ops o × List Request)
  advance d =
      if eqb_ℤ d.sys.stalled (pos 0)
      then (if d.was
          then (if d.still then ok (d.sys, []) else finish_front d.sys)
          else decode_front d.sys d.sys.request_queue)
      else ok (d.sys, [])

  unfoldable pub receive : Sys ops o → Request → Result (Sys ops o × List Request)
  receive s req = do
    host ← or_fail (head? s.request_queue) undefined
    if eqb_ℤ req.host_req_id host.host_req_id
        then (let s' = record s { stalled = s.stalled -ℤ pos 1 } in
            if eqb_ℤ s'.stalled (pos 0) then finish_front s' else ok (s', []))
        else err configuration_error

  -- A controller calls the callback of a request.
  unfoldable pub call_back : Sys ops o → Request → Callback → Result (Sys ops o × List Request)
  call_back s req no_callback = ok (s, [])
  call_back s req dma_receive = receive s req
  call_back s req host_callback = ok (s, req ∷ [])
  call_back s req checkpoint_callback = ok (s, req ∷ [])
  call_back s req core_callback = ok (s, req ∷ [])

  unfoldable pub call_backs : Sys ops o → List Request → Result (Sys ops o × List Request)
  call_backs s [] = ok (s, [])
  call_backs s (req ∷ reqs) = do
    (s', called) ← call_back s req req.callback
    (s'', more) ← call_backs s' reqs
    ok (s'', called ++ more)

  -- The loop that ticks the controllers, with `n` rounds left. The callbacks run while the
  -- controller ticks; they write only to the memory system, which a controller does not read.
  unfoldable pub tick_controllers : ℕ → ℕ → Sys ops o → Result (Sys ops o × List Request)
  tick_controllers zero ch s = ok (s, [])
  tick_controllers (suc n) ch s = do
    c ← or_fail (get_elem? s.controllers ch) undefined
    (d, c', served) ← ops.tick s.dram c
    (s', called) ← call_backs (record s { dram = d; controllers = set s.controllers ch c' }) served
    (s'', more) ← tick_controllers n (ch + 1) s'
    ok (s'', called ++ more)

  -- `if (m_clk % m_controllers[0]->get_clock_ratio() == 0)`.
  unfoldable pub tick_memory : Sys ops o → Result (Sys ops o × List Request)
  tick_memory s = do
    c ← or_fail (get_elem? s.controllers 0) undefined
    if ops.clock_ratio c == 0
        then err undefined
        else if s.clk % ops.clock_ratio c == 0
        then tick_controllers (length s.controllers) 0 (record s { dram = ops.dram_tick s.dram })
        else ok (s, [])

  unfoldable pub tick : Sys ops o → Result (Sys ops o × List Request)
  tick s = do
    d ← drain_channels max_channel_count 0 (record { sys = s; was = false; still = false })
    (s', called) ← advance d
    (s'', more) ← tick_memory s'
    ok (record s'' { clk = s''.clk + 1 }, called ++ more)
