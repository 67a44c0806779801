-- ===== src/Plugin/Estimate.antt =====
-- What the counters of Graphene know of the activations of a row
-- (src/dram_controller/impl/plugin/graphene.cpp).
use aim_simulator.Base.{
  ℕ, suc, ◌+◌, ◌≤◌, ◌≡◌, sym, ◌∙◌, Bool, true, false, List, [], ◌∷◌, ℤ, eqb_ℤ, Option, some, none,
  if◌then◌else◌, length, Bool-cases, ◌⊎◌, inl, inr, arith,
}
use aim_simulator.Plugin.Table.{
  Table, find, assign, total, IsDistinct, eq_of_test, find-assign_self, find-assign_other,
}
use aim_simulator.Plugin.Graphene.{Bank, activate}

-- The activations of a bank since its counters were reset, the latest first, each with whether
-- the victims of the row were refreshed.
abbrev pub Events : Type 0
Events = List (ℤ × Bool)

-- The activations of a row since the counters were reset or the row's victims were refreshed.
abbrev pub since : ℤ → Events → ℕ
since q [] = 0
since q (e ∷ es) = if eqb_ℤ e.0 q then (if e.1 then 0 else suc (since q es)) else since q es

-- The count of a row, or the spillover counter.
abbrev pub or_spillover : ℕ → Option ℕ → ℕ
or_spillover s none = s
or_spillover s (some c) = c

abbrev pub estimate : Bank → ℤ → ℕ
estimate b q = or_spillover b.spillover (find b.table q)

module _ (order : Table → Table) (threshold : ℕ) where
  -- The state of a bank's counters after some activations.
  pub data Reached (size : ℕ) : Bank → Events → Type 0 where
    started :
        {b : Bank}
        → IsDistinct b.table
        → length b.table ≡ size
        → total b.table ≡ 0
        → b.spillover ≡ 0
        → Reached size b []
    activated :
        {b : Bank} {es : Events} (row : ℤ)
        → Reached size b es
        → Reached size
            (activate order threshold b row).0
            ((row, (activate order threshold b row).1) ∷ es)

  -- The counters know enough: no count is below the spillover counter or, unless the spillover
  -- counter is, at the threshold; no row was activated more often than its estimate; the counts are
  -- of different activations.
  pub record Tracks (size : ℕ) (b : Bank) (es : Events) : Type 0 where
    pub distinct : IsDistinct b.table
    pub entries : length b.table ≡ size
    pub above : (q : ℤ) (c : ℕ) → find b.table q ≡ some c → b.spillover ≤ c
    pub below : (q : ℤ) (c : ℕ) → find b.table q ≡ some c → threshold ≤ c → c ≤ suc b.spillover
    pub covers : (q : ℤ) → since q es ≤ estimate b q
    pub mass : total b.table + b.spillover ≤ length es

  find-total : (t : Table) (q : ℤ) (c : ℕ) → find t q ≡ some c → c ≤ total t
  find-total [] q c h = absurd (ground arith)
  find-total (e ∷ t) q c h = elim (Bool-cases (eqb_ℤ e.0 q)) [
    | inl same ↦ let h1 = rw same at h in ground arith
    | inr other ↦ ground (arith, find-total t q c (rw other at h))
  ]

  pub started-Tracks :
      (size : ℕ) (b : Bank)
      → IsDistinct b.table
      → length b.table ≡ size
      → total b.table ≡ 0
      → b.spillover ≡ 0
      → Tracks size b []
  started-Tracks size b d l t s = record {
    distinct = d;
    entries = l;
    above = λ q c f. rw s (omega arith);
    below = λ q c f h. omega (arith, find-total b.table q c f);
    covers = λ q. omega arith;
    mass = omega arith;
  }

  -- A write to the table, at the key of the activated row or another.
  pub ask :
      (t : Table) (k q : ℤ) (v c : ℕ)
      → find (assign t k v) q ≡ some c
      → ((eqb_ℤ k q ≡ true) × (v ≡ c)) ⊎ ((eqb_ℤ k q ≡ false) × (find t q ≡ some c))
  ask t k q v c h = elim (Bool-cases (eqb_ℤ k q)) [
    | inl same ↦
        let e = eq_of_test k q same in
        inl (same, (let h1 = rw (← e, find-assign_self t k v) at h in ground arith))
    | inr other ↦ inr (other, sym (find-assign_other t k q v other) ∙ h)
  ]
