-- ===== src/Processor/Frontend.antt =====
-- src/frontend/impl/processor/simpleO3/simpleO3.cpp, and `tick` of the cache in llc.cpp: the cores with
-- the cache and the address translation that they share.
use aim_simulator.Base.{
  ℕ, ◌+◌, Bool, true, List, [], ◌∷◌, ℤ, pos, negsuc, ◌&&◌, leb, Option, none, Result, ok, undefined,
  or_fail, ◌>>=◌, if◌then◌else◌, get_elem?, set,
}
use aim_simulator.Request.{Request}
use aim_simulator.Processor.Core
use aim_simulator.Processor.Core.{Core, MemoryOps}
use aim_simulator.Processor.Cache
use aim_simulator.Processor.Cache.{Llc, put_requests}

-- The address translation, `send` of the memory system, and what the cache reads through the end
-- iterator of a set (`check_set_hit`), which are parameters here.
pub record Surroundings : Type 1 where
  pub Translation : Type 0
  pub translate : Translation → Request → Translation × Request × Bool
  pub Memory : Type 0
  pub send : Memory → Request → Result (Memory × Bool)
  pub end_read : Result Bool

module _ (env : Surroundings) where
  open env use {Translation, Memory}

  -- What a core sees of the cache and of the translation.
  abbrev pub core_translate : Translation × Llc → Request → (Translation × Llc) × Request × Bool
  core_translate m r = let out = env.translate m.0 r in ((out.0, m.1), out.1, out.2)

  abbrev pub core_send : Translation × Llc → Request → Result ((Translation × Llc) × Bool)
  core_send m r = do (c, sent) ← Cache.send env.end_read m.1 r; ok ((m.0, c), sent)

  abbrev pub llc_ops : MemoryOps
  llc_ops = record { Memory = Translation × Llc; translate = core_translate; send = core_send }

  pub record SimpleO3 : Type 0 where
    pub clk : ℕ
    pub cores : List Core
    pub translation : Translation
    pub llc : Llc
    pub memory : Memory

  -- The loop over the misses whose latency is over: what the memory system refuses stays.
  unfoldable pub send_misses :
      ℕ → List (ℕ × Request) → Memory → Result (List (ℕ × Request) × Memory)
  send_misses clk [] s = ok ([], s)
  send_misses clk (e ∷ rest) s =
      if leb e.0 clk
      then (do
        (s', sent) ← env.send s e.1
        (left, s'') ← send_misses clk rest s'
        ok (if sent then left else e ∷ left, s''))
      else (do (left, s') ← send_misses clk rest s; ok (e ∷ left, s'))

  -- `m_cores[r.source_id]->receive(r)` for the requests that wait for an address.
  abbrev pub core_at : List Core → ℤ → Option Core
  core_at cores (pos i) = get_elem? cores i
  core_at cores (negsuc i) = none

  abbrev pub set_core : List Core → ℤ → Core → List Core
  set_core cores (pos i) c = set cores i c
  set_core cores (negsuc i) c = cores

  unfoldable pub receive_each : Request → List Request → List Core → Result (List Core)
  receive_each req [] cores = ok cores
  receive_each req (r ∷ rs) cores = do
    c ← or_fail (core_at cores r.source_id) undefined
    c' ← Core.receive c (record r { arrive = req.arrive; depart = req.depart })
    receive_each req rs (set_core cores r.source_id c')

  -- `receive`: the callback of every request of a core.
  unfoldable pub receive : SimpleO3 → Request → Result SimpleO3
  receive s req = do
    c ← Cache.receive s.llc req
    cores ← receive_each req (c.receive_requests req.addr) s.cores
    ok (record s {
      llc = record c { receive_requests = put_requests c.receive_requests req.addr [] };
      cores = cores;
    })

  -- The loop over the hits whose latency is over: each is called back, with itself as the request
  -- that waits.
  unfoldable pub serve_hits : List (ℕ × Request) → SimpleO3 → Result SimpleO3
  serve_hits [] s = ok s
  serve_hits (e ∷ rest) s =
      if leb e.0 s.llc.clk
      then (do
        s' ←
            receive
              (record s {
                llc = record s.llc {
                  receive_requests = put_requests s.llc.receive_requests e.1.addr (e.1 ∷ []);
                };
              })
              e.1
        serve_hits rest s')
      else serve_hits rest s

  abbrev pub waiting_hits : ℕ → List (ℕ × Request) → List (ℕ × Request)
  waiting_hits clk [] = []
  waiting_hits clk (e ∷ rest) =
      if leb e.0 clk then waiting_hits clk rest else e ∷ waiting_hits clk rest

  -- `tick` of the cache. No callback adds to the hits.
  unfoldable pub tick_llc : SimpleO3 → Result SimpleO3
  tick_llc s = do
    let clk = s.llc.clk + 1
    (left, memory) ← send_misses clk s.llc.miss_list s.memory
    s' ←
        serve_hits s.llc.hit_list
          (record s { llc = record s.llc { clk = clk; miss_list = left }; memory = memory })
    ok (record s' { llc = record s'.llc { hit_list = waiting_hits clk s'.llc.hit_list } })

  -- The loop that ticks the cores, one after the other on the shared cache.
  unfoldable pub tick_cores :
      List Core → Translation × Llc → Result (List Core × (Translation × Llc))
  tick_cores [] m = ok ([], m)
  tick_cores (c ∷ cs) m = do
    (c', m') ← Core.tick llc_ops c m
    (cs', m'') ← tick_cores cs m'
    ok (c' ∷ cs', m'')

  unfoldable pub tick : SimpleO3 → Result SimpleO3
  tick s = do
    s1 ← tick_llc (record s { clk = s.clk + 1 })
    (cores, m) ← tick_cores s1.cores (s1.translation, s1.llc)
    ok (record s1 { cores = cores; translation = m.0; llc = m.1 })

  abbrev pub is_finished : List Core → Bool
  is_finished [] = true
  is_finished (c ∷ cs) = c.reached_expected_num_insts && is_finished cs
