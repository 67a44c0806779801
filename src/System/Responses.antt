-- ===== src/System/Responses.antt =====
-- The responses to a blocking host request: `receive` of
-- src/memory_system/impl/aim_DRAM_system.cpp.
use mathlib.Core.List.{append-nil}
use aim_simulator.Base.{
  ℕ, zero, suc, ◌<◌, ◌++◌, ◌≡◌, refl, ap, false, List, [], ◌∷◌, pos, ◌-ℤ◌, eqb_ℤ, eqb_ℤ_iff, ok,
  err, configuration_error, arith, length, All, ◌==◌, pos_pred, Bool-cases, inl, inr, if◌then◌else◌,
  ◌≢◌,
}
use aim_simulator.Request.{Request, dma_receive}
use aim_simulator.System.State.{ControllerOps, has_callback}
use aim_simulator.System.AddrMap.{Organization}
use aim_simulator.System.Fanout.{Sys}
use aim_simulator.System.Tick.{receive, call_back, call_backs, finish_front}

suc_ne_zero : (k : ℕ) → (suc k == 0) ≡ false
suc_ne_zero k = ground arith

module _ (ops : ControllerOps) (o : Organization) (host : Request) (hosts : List Request) where
  -- A response to the host request.
  pub record Answers (req : Request) : Type 0 where
    pub id : req.host_req_id ≡ host.host_req_id
    pub to_dma : req.callback ≡ dma_receive

  -- The host request's own callback, if it has one.
  abbrev pub notice : List Request
  notice = if has_callback host.callback then host ∷ [] else []

  receive_last :
      (s : Sys ops o) (req : Request)
      → s.request_queue ≡ host ∷ hosts
      → req.host_req_id ≡ host.host_req_id
      → s.stalled ≡ pos 1
      → receive ops o s req ≡ ok (record s { stalled = pos 0; request_queue = hosts }, notice)
  unfolding receive finish_front ◌-ℤ◌
  receive_last s req q id st = rw (q, st, (eqb_ℤ_iff _ _).1 id)

  receive_more :
      (s : Sys ops o) (req : Request) (k : ℕ)
      → s.request_queue ≡ host ∷ hosts
      → req.host_req_id ≡ host.host_req_id
      → s.stalled ≡ pos (suc (suc k))
      → receive ops o s req ≡ ok (record s { stalled = pos (suc k) }, [])
  unfolding receive
  receive_more s req k q id st = rw (q, st, (eqb_ℤ_iff _ _).1 id, pos_pred k, suc_ne_zero k)

  -- The last of the responses that are still awaited ends the host request: it leaves the queue and
  -- its callback is called, once; none of the earlier ones does so.
  pub call_backs-Answers :
      (req : Request) (reqs : List Request) (s : Sys ops o)
      → s.request_queue ≡ host ∷ hosts
      → All Answers (req ∷ reqs)
      → s.stalled ≡ pos (length (req ∷ reqs))
      → call_backs ops o s (req ∷ reqs)
        ≡ ok (record s { stalled = pos 0; request_queue = hosts }, notice)
  unfolding call_backs call_back
  call_backs-Answers req [] s q a st =
      rw (a.0.to_dma, call_back, receive_last s req q a.0.id st)
        (ap (λ (l : List Request). ok (record s { stalled = pos 0; request_queue = hosts }, l))
          (append-nil notice))
  call_backs-Answers req (next ∷ reqs) s q a st =
      rw (a.0.to_dma, call_back, receive_more s req (length reqs) q a.0.id st)
        (rw (
          call_backs-Answers next reqs (record s { stalled = pos (suc (length reqs)) }) q a.1 refl))

  receive_other :
      (s : Sys ops o) (req : Request)
      → s.request_queue ≡ host ∷ hosts
      → req.host_req_id ≢ host.host_req_id
      → receive ops o s req ≡ err configuration_error
  unfolding receive
  receive_other s req q other = elim (Bool-cases (eqb_ℤ req.host_req_id host.host_req_id)) [
    | inl same ↦ absurd (other ((eqb_ℤ_iff _ _).0 same))
    | inr differ ↦ rw (q, differ)
  ]

  -- While the host request awaits more responses than those that come first, a response to another
  -- host request behind them is a configuration error, whatever comes after it.
  pub call_backs-stray :
      (reqs : List Request) (stray : Request) (rest : List Request) (s : Sys ops o) (n : ℕ)
      → s.request_queue ≡ host ∷ hosts
      → All Answers reqs
      → s.stalled ≡ pos n
      → length reqs < n
      → stray.callback ≡ dma_receive
      → stray.host_req_id ≢ host.host_req_id
      → call_backs ops o s (reqs ++ stray ∷ rest) ≡ err configuration_error
  unfolding call_backs call_back
  call_backs-stray [] stray rest s n q a st more to_dma other =
      rw (to_dma, call_back, receive_other s stray q other) refl
  call_backs-stray (req ∷ reqs) stray rest s zero q a st more to_dma other =
      absurd (omega (arith, more))
  call_backs-stray (req ∷ reqs) stray rest s (suc zero) q a st more to_dma other =
      absurd (omega (arith, more))
  call_backs-stray (req ∷ reqs) stray rest s (suc (suc k)) q a st more to_dma other =
      rw (a.0.to_dma, call_back, receive_more s req k q a.0.id st)
        (rw
          (call_backs-stray reqs stray rest (record s { stalled = pos (suc k) }) (suc k) q a.1 refl
            (omega (arith, more)) to_dma other)
          refl)
