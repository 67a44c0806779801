-- ===== src/Plugin/Guarantee.antt =====
-- What the counters of Graphene promise (src/dram_controller/impl/plugin/graphene.cpp).
use native.Mathlib.Nat.{lt_of_mul-lt-mul_left}
use aim_simulator.Base.{
  ℕ, suc, ◌-◌, ◌*◌, ◌≤◌, ◌<◌, ◌≡◌, refl, [], ◌∷◌, ℤ, eqb_ℤ, Option, some, none, length, Bool-cases,
  inl, inr, arith,
}
use aim_simulator.Plugin.Table.{Table, find, total, IsDistinct, IsOrder, eq_of_test, test_self}
use aim_simulator.Plugin.Graphene.{Bank}
use aim_simulator.Plugin.Estimate.{Events, since, or_spillover, Reached}
use aim_simulator.Plugin.Tracking.{Reached-Tracks}

later :
    (e : ℤ × ℕ) (t : Table) (q : ℤ) (c : ℕ)
    → find t e.0 ≡ none
    → find t q ≡ some c
    → find (e ∷ t) q ≡ some c
later e t q c gone f = elim (Bool-cases (eqb_ℤ e.0 q)) [
  | inr other ↦ rw other f
  | inl same ↦
      let key = eq_of_test e.0 q same in let gone1 = rw key at gone in absurd (ground arith)
]

total-above :
    (t : Table) (s : ℕ)
    → IsDistinct t
    → ((q : ℤ) (c : ℕ) → find t q ≡ some c → s ≤ c)
    → length t * s ≤ total t
total-above [] s d h = omega arith
total-above (e ∷ t) s d h =
    let here = h e.0 e.1 (rw (test_self e.0) refl) in
    let rest = total-above t s d.1 (λ q c f. h q c (later e t q c d.0 f)) in
    omega (arith, here, rest)

module _ (order : Table → Table) (threshold size : ℕ) (visits : IsOrder order) where
  -- The spillover counter stays low: a bank with `size` entries has seen `size` + 1 activations for
  -- each time that the spillover counter was raised.
  pub Reached-spillover :
      (b : Bank) (es : Events)
      → Reached order threshold size b es
      → suc size * b.spillover ≤ length es
  Reached-spillover b es r =
      let k = Reached-Tracks order threshold size visits b es r in
      let low = total-above b.table b.spillover k.distinct k.above in
      let low1 = rw (k.entries) at low in omega (arith, low1, k.mass)

  or_spillover_below :
      (b : Bank) (q : ℤ) (o : Option ℕ)
      → find b.table q ≡ o
      → ((c : ℕ) → find b.table q ≡ some c → threshold ≤ c → c ≤ suc b.spillover)
      → suc b.spillover < threshold
      → or_spillover b.spillover o < threshold
  or_spillover_below b q none f below small = omega arith
  or_spillover_below b q (some c) f below small = let h = below c f in ground arith

  -- No row of a bank is activated `threshold` times without a request to refresh its victims: at any time, in
  -- whatever order the tables are searched, as long as the bank has seen less than
  -- (`size` + 1) * (`threshold` - 1) activations since its counters were reset.
  pub Reached-since :
      (b : Bank) (es : Events) (row : ℤ)
      → length es < suc size * (threshold - 1)
      → Reached order threshold size b es
      → since row es < threshold
  Reached-since b es row few r =
      let k = Reached-Tracks order threshold size visits b es r in
      let low = Reached-spillover b es r in
      let small : b.spillover < threshold - 1 =
        lt_of_mul-lt-mul_left (suc size) (omega (arith, low, few)) in
      let known = k.covers row in
      let high =
        or_spillover_below b row (find b.table row) refl (k.below row) (omega (arith, small)) in
      omega (arith, known, high)
