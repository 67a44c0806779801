-- ===== src/Processor/Ring.antt =====
-- Positions in the ring of the instruction window
-- (src/frontend/impl/processor/simpleO3/core.cpp).
use native.Mathlib.Nat.{mod_self, mod-eq_of_lt}
use aim_simulator.Base.{
  ℕ, zero, suc, ◌+◌, ◌-◌, ◌%◌, ◌≤◌, ◌<◌, ◌≡◌, refl, ◌==◌, leb, if◌then◌else◌, Bool-cases, ==_iff,
  inl, inr, arith,
}

-- The next position, and the position `n` further on.
abbrev pub next : ℕ → ℕ → ℕ
next d i = if i + 1 == d then 0 else i + 1

abbrev pub advance : ℕ → ℕ → ℕ → ℕ
advance d zero i = i
advance d (suc n) i = advance d n (next d i)

pub next-mod : (d i : ℕ) → i < d → (i + 1) % d ≡ next d i
next-mod d i h = elim (Bool-cases (i + 1 == d)) [
  | inl end ↦ let e = (==_iff (i + 1) d).0 end in rw (end, e) (mod_self d)
  | inr inside ↦ rw inside (mod-eq_of_lt (ground arith))
]

pub advance-lt : (d n i : ℕ) → i < d → advance d n i < d
advance-lt d zero i h = h
advance-lt d (suc n) i h = advance-lt d n (next d i) (ground arith)

-- Less than a round on, the position is another one.
pub advance_lem :
    (d n i : ℕ) → i < d → n ≤ d → advance d n i ≡ (if leb d (i + n) then i + n - d else i + n)
advance_lem d zero i h r = ground arith
advance_lem d (suc n) i h r =
    ground (arith, advance_lem d n (next d i) (ground arith) (omega arith))

pub advance-suc : (d n i : ℕ) → advance d (suc n) i ≡ next d (advance d n i)
advance-suc d zero i = refl
advance-suc d (suc n) i = advance-suc d n (next d i)
