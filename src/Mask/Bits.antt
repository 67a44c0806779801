-- ===== src/Mask/Bits.antt =====
-- src/memory_system/impl/aim_DRAM_system.cpp, `CountSetBit` and `FindFirstChannelIndex`. The mask is
-- an `int64_t`, here its 64-bit pattern. The build is a release build, which drops the asserts.
use aim_simulator.Base.{
  ℕ, zero, suc, ◌+◌, ◌-◌, ◌/◌, ◌%◌, ◌^◌, Bool, List, [], ◌∷◌, ◌==◌, if◌then◌else◌, not,
}

-- MAX_CHANNEL_COUNT.
abbrev pub max_channel_count : ℕ
max_channel_count = 32

-- `ch_mask & (0x1 << i)` is not zero. `0x1 << 31` is a negative `int`, which is widened to 64 bits
-- with its sign, so the last test sees bits 31 to 63.
abbrev pub test_bit64 : ℕ → ℕ → Bool
test_bit64 m i = if i == 31 then not (m / 2 ^ 31 == 0) else (m / 2 ^ i) % 2 == 1

-- The loop of `CountSetBit`, with `n` rounds left.
unfoldable pub count_from : ℕ → ℕ → ℕ → ℕ → ℕ
count_from zero i m count = count
count_from (suc n) i m count = count_from n (i + 1) m (if test_bit64 m i then count + 1 else count)

unfoldable pub count_set_bit : ℕ → ℕ
count_set_bit m = count_from max_channel_count 0 m 0

-- The loop of `FindFirstChannelIndex` over the 32-bit copy `u`: the channel and the new mask. If no
-- bit is set the function returns 0 and leaves `ch_mask` alone.
unfoldable pub find_from : ℕ → ℕ → ℕ → ℕ → ℕ × ℕ
find_from zero i u m = (0, m)
find_from (suc n) i u m =
    let rest = find_from n (i + 1) u m in
    if (u / 2 ^ i) % 2 == 1 then (max_channel_count - 1 - i, u - 2 ^ i) else rest

unfoldable pub find_first_channel_index : ℕ → ℕ × ℕ
find_first_channel_index m = find_from max_channel_count 0 (m % 2 ^ 32) m

-- The channels that `n` calls in a row yield, and the mask that is left.
unfoldable pub visits : ℕ → ℕ → List ℕ × ℕ
visits zero m = ([], m)
visits (suc n) m = let r = find_first_channel_index m in let s = visits n r.1 in (r.0 ∷ s.0, s.1)

-- The channels that a mask selects: channel 31 - i for each bit i that is set, from bit `i` up.
unfoldable pub channels_from : ℕ → ℕ → ℕ → List ℕ
channels_from zero i q = []
channels_from (suc n) i q =
    let rest = channels_from n (i + 1) (q / 2) in
    if q % 2 == 1 then (max_channel_count - 1 - i) ∷ rest else rest

unfoldable pub channels : ℕ → List ℕ
channels m = channels_from max_channel_count 0 m
