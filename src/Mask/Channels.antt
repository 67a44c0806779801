-- ===== src/Mask/Channels.antt =====
-- The loop over a channel mask visits exactly the channels that the mask selects
-- (src/memory_system/impl/aim_DRAM_system.cpp).
use native.Mathlib.Nat.{
  mul_assoc, pow-suc, add-zero, zero-add, add-suc, suc-add, mul-lt-mul_of_pos_left,
  div-div-eq-div-mul, mod-eq_of_lt,
}
use native.Mathlib.Numerals.{add-one}
use aim_simulator.Base.{
  ℕ, zero, suc, ◌+◌, ◌-◌, ◌*◌, ◌/◌, ◌%◌, ◌^◌, ◌<◌, ◌≡◌, refl, sym, ap, ◌∙◌, ◌∷◌, ◌==◌, arith,
  length, Bool-cases, inl, inr,
}
use aim_simulator.Mask.Bits.{
  test_bit64, count_from, count_set_bit, find_from, find_first_channel_index, visits, channels_from,
  channels,
}

pow-add : (i d : ℕ) → 2 ^ (i + d) ≡ 2 ^ i * 2 ^ d
pow-add i zero = simp add-zero (omega arith)
pow-add i (suc d) = simp (add-suc, pow-suc, pow-add i d) (omega arith)

pow_pos : (i : ℕ) → 0 < 2 ^ i
pow_pos zero = omega arith
pow_pos (suc i) = simp pow-suc (omega (arith, pow_pos i))

div_cancel : (p q : ℕ) → 0 < p → (p * q) / p ≡ q
div_cancel p q h = grind arith

-- Bit j of a number that starts at bit i.
bit_at : (i q : ℕ) → (2 ^ i * q) / 2 ^ i ≡ q
bit_at i q = div_cancel (2 ^ i) q (pow_pos i)

bit_below : (j d q : ℕ) → ((2 ^ (j + suc d) * q) / 2 ^ j) % 2 ≡ 0
bit_below j d q =
    let e : 2 ^ (j + suc d) * q ≡ 2 ^ j * (2 * (2 ^ d * q)) =
      simp (pow-add j (suc d), pow-suc) (omega arith) in
    rw (e, div_cancel (2 ^ j) (2 * (2 ^ d * q)) (pow_pos j)) (omega arith)

pow_split : (i n q : ℕ) → i + n ≡ 32 → q < 2 ^ n → 2 ^ i * q < 2 ^ 32
pow_split i n q e h =
    let s : 2 ^ i * 2 ^ n ≡ 2 ^ 32 = rw (← pow-add i n, e) in
    rw s at (mul-lt-mul_of_pos_left h (pow_pos i))

find_skip :
    (n d j q u m : ℕ) → u ≡ 2 ^ (j + d) * q → find_from (d + n) j u m ≡ find_from n (j + d) u m
unfolding find_from
find_skip n zero j q u m e = simp (add-zero, zero-add)
find_skip n (suc d) j q u m e =
    let low : (u / 2 ^ j) % 2 ≡ 0 = rw e (bit_below j d q) in
    let step : j + suc d ≡ j + 1 + d = omega arith in
    let next : u ≡ 2 ^ (j + 1 + d) * q = rw (← step) e in
    simp (suc-add) (rw (low, step) (find_skip n d (j + 1) q u m next))

find_hit : (n i u m : ℕ) → (u / 2 ^ i) % 2 ≡ 1 → find_from (suc n) i u m ≡ (31 - i, u - 2 ^ i)
unfolding find_from
find_hit n i u m h = rw h

-- With bit i as the lowest bit that is set, one call yields channel 31 - i and clears that bit.
find_lowest :
    (i n q : ℕ)
    → i + suc n ≡ 32
    → suc (2 * q) < 2 ^ suc n
    → find_first_channel_index (2 ^ i * suc (2 * q)) ≡ (31 - i, 2 ^ suc i * q)
unfolding find_first_channel_index
find_lowest i n q e h =
    let u : ℕ = 2 ^ i * suc (2 * q) in
    let small : u % 2 ^ 32 ≡ u = mod-eq_of_lt (pow_split i (suc n) (suc (2 * q)) e h) in
    let from_zero : find_from (i + suc n) 0 u u ≡ find_from (suc n) (0 + i) u u =
      find_skip (suc n) i 0 (suc (2 * q)) u u (rw zero-add) in
    let skip : find_from 32 0 u u ≡ find_from (suc n) i u u = rw (e, zero-add) at from_zero in
    let here : u / 2 ^ i % 2 ≡ 1 = rw (bit_at i (suc (2 * q))) (omega arith) in
    let left : u - 2 ^ i ≡ 2 ^ suc i * q = simp pow-suc (omega arith) in
    rw (small, skip, find_hit n i u u here, left)

visits_step :
    (k m c r : ℕ)
    → find_first_channel_index m ≡ (c, r)
    → visits (suc k) m ≡ (c ∷ (visits k r).0, (visits k r).1)
unfolding visits
visits_step k m c r h = rw h

two_pow_add_one : (i : ℕ) → 2 ^ (i + 1) ≡ 2 ^ i * 2
two_pow_add_one i = simp (add-one, pow-suc)

find_odd :
    (i n q r : ℕ)
    → q ≡ suc (2 * r)
    → i + suc n ≡ 32
    → q < 2 ^ suc n
    → find_first_channel_index (2 ^ i * q) ≡ (31 - i, 2 ^ (i + 1) * r)
find_odd i n q r shape e h =
    let h' : suc (2 * r) < 2 ^ suc n = rw shape at h in rw (shape, add-one) (find_lowest i n r e h')

visits-channels_from :
    (n i q : ℕ)
    → i + n ≡ 32
    → q < 2 ^ n
    → visits (length (channels_from n i q)) (2 ^ i * q) ≡ (channels_from n i q, 0)
unfolding channels_from
visits-channels_from zero i q e h =
    let z : q ≡ 0 = omega arith in rw z (unfold visits in ground arith)
visits-channels_from (suc n) i q e h =
    let half : q / 2 < 2 ^ n = (let p : 2 ^ suc n ≡ 2 ^ n * 2 = pow-suc 2 n in omega arith) in
    let ih = visits-channels_from n (i + 1) (q / 2) (omega arith) half in
    elim (Bool-cases (q % 2 == 1)) [
      | inl odd ↦
          let first = find_odd i n q (q / 2) (ground arith) e h in
          rw odd (visits_step _ _ _ _ first ∙ rw ih)
      | inr even ↦
          let twice : q ≡ 2 * (q / 2) = ground arith in
          let shape : 2 ^ i * q ≡ 2 ^ (i + 1) * (q / 2) =
            rw (two_pow_add_one i)
              (ap (λ (t : ℕ). 2 ^ i * t) twice ∙ sym (mul_assoc (2 ^ i) 2 (q / 2))) in
          rw (even, shape) ih
    ]

-- `CountSetBit` sees the same bits, as long as the mask has 32 bits.
test_bit64_low : (n i m : ℕ) → i + suc n ≡ 32 → m < 2 ^ 32 → test_bit64 m i ≡ ((m / 2 ^ i) % 2 == 1)
test_bit64_low n i m e h = elim (Bool-cases (i == 31)) [
  | inl last ↦ let z : i ≡ 31 = ground arith in rw z (ground arith)
  | inr other ↦ rw other
]

count_from-channels_from :
    (n i m c : ℕ)
    → i + n ≡ 32
    → m < 2 ^ 32
    → count_from n i m c ≡ c + length (channels_from n i (m / 2 ^ i))
unfolding count_from channels_from
count_from-channels_from zero i m c e h = omega arith
count_from-channels_from (suc n) i m c e h =
    let next : m / 2 ^ (i + 1) ≡ m / 2 ^ i / 2 =
      rw (two_pow_add_one i) (sym (div-div-eq-div-mul m (2 ^ i) 2)) in
    let test : test_bit64 m i ≡ ((m / 2 ^ i) % 2 == 1) = test_bit64_low n i m e h in
    let ih = λ (d : ℕ). count_from-channels_from n (i + 1) m d (omega arith) h in
    elim (Bool-cases ((m / 2 ^ i) % 2 == 1)) [
      | inl odd ↦ rw (test, odd) (ih (c + 1) ∙ rw next (omega arith))
      | inr even ↦ rw (test, even) (ih c ∙ rw next)
    ]

-- For a mask of 32 bits, `CountSetBit` calls of `FindFirstChannelIndex` visit each channel that the
-- mask selects once, in the order of the bits, and leave no bit in the mask.
pub visits-channels : (m : ℕ) → m < 2 ^ 32 → visits (count_set_bit m) m ≡ (channels m, 0)
unfolding count_set_bit channels
visits-channels m h =
    let start : 2 ^ 0 * m ≡ m = omega arith in
    let whole : m / 2 ^ 0 ≡ m = omega arith in
    let count : count_from 32 0 m 0 ≡ length (channels_from 32 0 m) =
      (rw whole at (count_from-channels_from 32 0 m 0 refl h)) ∙ zero-add _ in
    rw count (rw start at (visits-channels_from 32 0 m refl h))
