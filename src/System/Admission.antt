-- ===== src/System/Admission.antt =====
-- What `send` and a tick do to the length of the queue of host requests
-- (src/memory_system/impl/aim_DRAM_system.cpp).
use aim_simulator.Base.{
  ◌+◌, ◌≤◌, ◌<◌, ◌≡◌, ap, Bool, true, false, List, [], ◌∷◌, ◌++◌, ok, arith, length, length-append,
  ◌⊎◌, ◌==◌, Bool-cases, inl, inr,
}
use aim_simulator.Isr.Table.{RequestType, read, write, aim}
use aim_simulator.Request.{Request}
use aim_simulator.System.State.{DramSystem, isr_size, send, count_request}

-- The queue of host requests holds `ISR_SIZE` requests at most.
abbrev pub IsWithin : {C D : Type 0} → DramSystem C D → Type 0
IsWithin s = length s.request_queue ≤ isr_size

abbrev pub IsHostType : RequestType → Type 0
IsHostType t = (t ≡ read) ⊎ (t ≡ write) ⊎ (t ≡ aim)

module _ {C D : Type 0} where
  pub counted :
      (s : DramSystem C D) (req : Request) (ty : RequestType) {t : DramSystem C D} {b : Bool}
      → count_request s req ty ≡ ok (t, b)
      → (t.request_queue ≡ s.request_queue) × (b ≡ true) × IsHostType ty
  counted s req aim h = ground arith
  counted s req read h = ground arith
  counted s req write h = ground arith
  counted s req _ h = absurd (ground arith)

  -- A request is taken exactly when the queue has room, and goes to its end; otherwise only the
  -- count of full cycles changes. A queue within its limit stays so.
  pub send_admission :
      (s : DramSystem C D) (req : Request) {t : DramSystem C D} {b : Bool}
      → IsWithin s
      → send s req ≡ ok (t, b)
      → IsWithin t
        × (b ≡ true
            → (length s.request_queue < isr_size) × (t.request_queue ≡ s.request_queue ++ req ∷ []))
        × (b ≡ false
            → (length s.request_queue ≡ isr_size)
              × (t ≡ record s { isr_queue_full = s.isr_queue_full + 1 }))
  unfolding send
  send_admission s req {t} {b} room h = elim (Bool-cases (length s.request_queue == isr_size)) [
    | inl full ↦ let h1 = rw full at h in (ground arith, ground arith, ground arith)
    | inr free ↦
        let h1 = rw free at h in
        let c = counted _ req req.type h1 in
        let longer = length-append s.request_queue (req ∷ []) in
        (ground (arith, ap (λ (q : List Request). length q) c.0), ground arith, ground arith)
  ]
