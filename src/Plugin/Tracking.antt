-- ===== src/Plugin/Tracking.antt =====
-- Every activation keeps the counters of Graphene right
-- (src/dram_controller/impl/plugin/graphene.cpp, `update`).
use mathlib.Core.Path.{subst}
use aim_simulator.Base.{
  ℕ, suc, ◌+◌, ◌≤◌, ◌≡◌, ◌≢◌, refl, sym, ◌∙◌, Bool, true, false, ◌∷◌, ℤ, eqb_ℤ, leb, Option, some,
  none, Bool-cases, Option-cases, inl, inr, arith,
}
use aim_simulator.Plugin.Table.{
  Table, find, assign, erase, first_with, IsDistinct, IsOrder, eq_of_test, test_self,
  find-assign_self, find-assign_other, find-erase_other, find-erase_self, find-erase-none,
  IsDistinct-erase, IsDistinct-assign, total-assign-some, total-assign-none, total-erase,
  first_with-some, first_with-none,
}
use aim_simulator.Plugin.Graphene.{Bank, activate_found, replace, count_up}
use aim_simulator.Plugin.Estimate.{
  Events, since, or_spillover, Reached, started, activated, Tracks, started-Tracks, ask,
}

module _ (order : Table → Table) (threshold : ℕ) (size : ℕ) where
  -- The estimate of a row that a write leaves alone.
  since_other :
      (row q : ℤ) (v : Bool) (es : Events)
      → eqb_ℤ row q ≡ false
      → since q ((row, v) ∷ es) ≡ since q es
  since_other row q v es h = rw h refl

  since_self :
      (row q : ℤ) (es : Events)
      → eqb_ℤ row q ≡ true
      → since q ((row, false) ∷ es) ≡ suc (since q es)
  since_self row q es h = rw h refl

  -- The row has reached the threshold.
  refresh-Tracks :
      (b : Bank) (es : Events) (row : ℤ) (c : ℕ)
      → find b.table row ≡ some c
      → Tracks order threshold size b es
      → Tracks order threshold size
          (record b { table = assign (assign b.table row (c + 1)) row b.spillover })
          ((row, true) ∷ es)
  refresh-Tracks b es row c f k =
      let t1 = assign b.table row (c + 1) in
      let f1 = find-assign_self b.table row (c + 1) in
      let one = total-assign-some b.table row c (c + 1) f in
      let two = total-assign-some t1 row (c + 1) b.spillover f1 in
      let low = k.above row c f in
      record {
        distinct =
            IsDistinct-assign t1 row b.spillover (IsDistinct-assign b.table row (c + 1) k.distinct);
        entries = two.1 ∙ one.1 ∙ k.entries;
        above = λ q d g. elim (ask order threshold t1 row q b.spillover d g) [
          | inl here ↦ omega (arith, here.1)
          | inr there ↦
              k.above q d (sym (find-assign_other b.table row q (c + 1) there.0) ∙ there.1)
        ];
        below = λ q d g h. elim (ask order threshold t1 row q b.spillover d g) [
          | inl here ↦ omega (arith, here.1)
          | inr there ↦
              k.below q d (sym (find-assign_other b.table row q (c + 1) there.0) ∙ there.1) h
        ];
        covers = λ q. elim (Bool-cases (eqb_ℤ row q)) [
          | inl same ↦ rw same (omega arith)
          | inr other ↦
              rw
                (
                  other,
                  find-assign_other t1 row q b.spillover other,
                  find-assign_other b.table row q (c + 1) other,
                )
                (k.covers q)
        ];
        mass = omega (arith, one.0, two.0, low, k.mass);
      }

  -- The row is counted, and has not reached the threshold.
  counted-Tracks :
      (b : Bank) (es : Events) (row : ℤ) (c : ℕ)
      → find b.table row ≡ some c
      → leb threshold (c + 1) ≡ false
      → Tracks order threshold size b es
      → Tracks order threshold size
          (record b { table = assign b.table row (c + 1) })
          ((row, false) ∷ es)
  counted-Tracks b es row c f small k =
      let one = total-assign-some b.table row c (c + 1) f in
      let low = k.above row c f in
      record {
        distinct = IsDistinct-assign b.table row (c + 1) k.distinct;
        entries = one.1 ∙ k.entries;
        above = λ q d g. elim (ask order threshold b.table row q (c + 1) d g) [
          | inl here ↦ omega (arith, here.1, low)
          | inr there ↦ k.above q d there.1
        ];
        below = λ q d g h. elim (ask order threshold b.table row q (c + 1) d g) [
          | inl here ↦ let e = here.1 in absurd (ground arith)
          | inr there ↦ k.below q d there.1 h
        ];
        covers = λ q. elim (Bool-cases (eqb_ℤ row q)) [
          | inl same ↦
              let once = since_self row row es (test_self row) in
              let known = k.covers row in
              let old : since row es ≤ c = rw f at known in
              subst
                (λ p.
                  since p ((row, false) ∷ es)
                  ≤ or_spillover b.spillover (find (assign b.table row (c + 1)) p))
                (eq_of_test row q same)
                (rw (once, find-assign_self b.table row (c + 1)) (omega (arith, old)))
          | inr other ↦ rw (other, find-assign_other b.table row q (c + 1) other) (k.covers q)
        ];
        mass = omega (arith, one.0, k.mass);
      }

  kept :
      (b : Bank) (gone q : ℤ) (d : ℕ)
      → IsDistinct b.table
      → find (erase b.table gone) q ≡ some d
      → find b.table q ≡ some d
  kept b gone q d u h = elim (Bool-cases (eqb_ℤ gone q)) [
    | inr other ↦ sym (find-erase_other b.table gone q other) ∙ h
    | inl same ↦
        let e = eq_of_test gone q same in
        let h1 = rw (← e, find-erase_self b.table gone u) at h in absurd (ground arith)
  ]

  -- The estimate of the row that is gone is the spillover counter, as before.
  erased :
      (b : Bank) (gone q : ℤ)
      → IsDistinct b.table
      → find b.table gone ≡ some b.spillover
      → or_spillover b.spillover (find (erase b.table gone) q)
        ≡ or_spillover b.spillover (find b.table q)
  erased b gone q u g = elim (Bool-cases (eqb_ℤ gone q)) [
    | inr other ↦ rw (find-erase_other b.table gone q other) refl
    | inl same ↦ let e = eq_of_test gone q same in rw (← e, find-erase_self b.table gone u, g) refl
  ]

  -- The row takes the place of another.
  replaced-Tracks :
      (b : Bank) (es : Events) (row gone : ℤ)
      → find b.table row ≡ none
      → find b.table gone ≡ some b.spillover
      → Tracks order threshold size b es
      → Tracks order threshold size
          (record b { table = assign (erase b.table gone) row (b.spillover + 1) })
          ((row, false) ∷ es)
  replaced-Tracks b es row gone f g k =
      let t1 = erase b.table gone in
      let f1 = find-erase-none b.table gone row f in
      let one = total-erase b.table gone b.spillover g in
      let two = total-assign-none t1 row (b.spillover + 1) f1 in
      record {
        distinct =
            IsDistinct-assign t1 row (b.spillover + 1) (IsDistinct-erase b.table gone k.distinct);
        entries = two.1 ∙ one.1 ∙ k.entries;
        above = λ q d h. elim (ask order threshold t1 row q (b.spillover + 1) d h) [
          | inl here ↦ omega (arith, here.1)
          | inr there ↦ k.above q d (kept b gone q d k.distinct there.1)
        ];
        below = λ q d h big. elim (ask order threshold t1 row q (b.spillover + 1) d h) [
          | inl here ↦ omega (arith, here.1)
          | inr there ↦ k.below q d (kept b gone q d k.distinct there.1) big
        ];
        covers = λ q. elim (Bool-cases (eqb_ℤ row q)) [
          | inl same ↦
              let once = since_self row row es (test_self row) in
              let known = k.covers row in
              let old : since row es ≤ b.spillover = rw f at known in
              subst
                (λ p.
                  since p ((row, false) ∷ es)
                  ≤ or_spillover b.spillover (find (assign t1 row (b.spillover + 1)) p))
                (eq_of_test row q same)
                (rw (once, find-assign_self t1 row (b.spillover + 1)) (omega (arith, old)))
          | inr other ↦
              rw (other, find-assign_other t1 row q (b.spillover + 1) other)
                (rw (erased b gone q k.distinct g) (k.covers q))
        ];
        mass = omega (arith, one.0, two.0, k.mass);
      }

  or_spillover_mono :
      (s : ℕ) (o : Option ℕ) (n : ℕ) → n ≤ or_spillover s o → n ≤ or_spillover (s + 1) o
  or_spillover_mono s none n h = omega arith
  or_spillover_mono s (some c) n h = h

  -- No entry is caught up with: the spillover counter counts the row.
  spilled-Tracks :
      (b : Bank) (es : Events) (row : ℤ)
      → find b.table row ≡ none
      → ((q : ℤ) (c : ℕ) → find b.table q ≡ some c → c ≢ b.spillover)
      → Tracks order threshold size b es
      → Tracks order threshold size (record b { spillover = b.spillover + 1 }) ((row, false) ∷ es)
  spilled-Tracks b es row f apart k = record {
    distinct = k.distinct;
    entries = k.entries;
    above = λ q d h. let far = apart q d h in omega (arith, k.above q d h, far);
    below = λ q d h big. omega (arith, k.below q d h big);
    covers = λ q. elim (Bool-cases (eqb_ℤ row q)) [
      | inl same ↦
          let once = since_self row row es (test_self row) in
          let known = k.covers row in
          let old : since row es ≤ b.spillover = rw f at known in
          subst (λ p. since p ((row, false) ∷ es) ≤ or_spillover (b.spillover + 1) (find b.table p))
            (eq_of_test row q same) (rw (once, f) (omega (arith, old)))
      | inr other ↦
          rw other (or_spillover_mono b.spillover (find b.table q) (since q es) (k.covers q))
    ];
    mass = omega (arith, k.mass);
  }

  module _ (visits : IsOrder order) where
    found-Tracks :
        (b : Bank) (es : Events) (row : ℤ) (o : Option ℕ)
        → find b.table row ≡ o
        → Tracks order threshold size b es
        → Tracks order threshold size
            (activate_found order threshold b row o).0
            ((row, (activate_found order threshold b row o).1) ∷ es)
    unfolding activate_found replace count_up
    found-Tracks b es row (some c) f k = elim (Bool-cases (leb threshold (c + 1))) [
      | inl full ↦ rw full (refresh-Tracks b es row c f k)
      | inr small ↦ rw small (counted-Tracks b es row c f small k)
    ]
    found-Tracks b es row none f k =
        let walk = visits b.table k.distinct in
        elim (Option-cases (first_with b.spillover (order b.table))) [
          | inl nothing ↦ rw nothing (
              spilled-Tracks b es row f
                (λ q c g. first_with-none b.spillover (order b.table) q c nothing (walk.1 q ∙ g)) k)
          | inr here ↦
              let (gone, e) = here in
              rw e (
                replaced-Tracks b es row gone f
                  (sym (walk.1 gone) ∙ first_with-some b.spillover (order b.table) gone walk.0 e) k)
        ]

    -- The counters of a bank track its activations, in whatever order a table is searched.
    pub Reached-Tracks :
        (b : Bank) (es : Events)
        → Reached order threshold size b es
        → Tracks order threshold size b es
    Reached-Tracks b es (started d l t s) = started-Tracks order threshold size b d l t s
    Reached-Tracks b' es' (activated {b} {es} row before) =
        found-Tracks b es row (find b.table row) refl (Reached-Tracks b es before)
