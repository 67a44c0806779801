-- ===== src/Processor/Together.antt =====
-- The cores run on the cache that they share (src/frontend/impl/processor/simpleO3/simpleO3.cpp, `tick`).
use aim_simulator.Base.{◌≡◌, refl, Bool, List, [], ◌∷◌, ok, inl, inr, arith}
use aim_simulator.Request.{Request}
use aim_simulator.Processor.Queue.{Entry}
use aim_simulator.Processor.Core.{Core}
use aim_simulator.Processor.Cache.{Llc}
use aim_simulator.Processor.Flow.{Runs, Ticked}
use aim_simulator.Processor.Ticking.{MemoryLaws}
use aim_simulator.Processor.Sound.{IsSound}
use aim_simulator.Processor.Answering.{send-IsSound}
use aim_simulator.Processor.Frontend.{Surroundings, core_send, llc_ops}

module _ (env : Surroundings) where
  open env use {Translation}

  pub core_send-IsSound :
      (past : Bool) (harmless : env.end_read ≡ ok past) (m : Translation × Llc) (r : Request)
      → IsSound m.1
      → (m' : Translation × Llc) × (b : Bool) × (core_send env m r ≡ ok (m', b)) × IsSound m'.1
  core_send-IsSound past harmless m r s = elim (send-IsSound env.end_read m.1 r s) [
    | inl (c, b, e, s') ↦ ((m.0, c), b, rw e refl, s')
    | inr (e, fails, read, absent) ↦ absurd (ground arith)
  ]

  -- Where reads through the end iterator are harmless, the cache is a memory as the cores need it.
  abbrev pub llc_laws : (past : Bool) → env.end_read ≡ ok past → MemoryLaws (llc_ops env)
  llc_laws past harmless = record {
    IsGood = λ m. IsSound m.1;
    translated = λ m r s. s;
    answered = core_send-IsSound past harmless;
  }

  -- Each core holds a queue of instructions.
  abbrev pub AllRun : List Core → List (List Entry) → Type 0
  AllRun [] [] = Unit
  AllRun (c ∷ cs) (q ∷ qs) = Runs c q × AllRun cs qs
  AllRun _ _ = ⊥

  -- Each core has done a tick.
  abbrev pub AllTicked : List Core → List Core → List (List Entry) → Type 0
  AllTicked [] [] [] = Unit
  AllTicked (c ∷ cs) (d ∷ ds) (q ∷ qs) = Ticked c d q × AllTicked cs ds qs
  AllTicked _ _ _ = ⊥
