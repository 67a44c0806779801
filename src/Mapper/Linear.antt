-- ===== src/Mapper/Linear.antt =====
-- src/addr_mapper/impl/linear_mappers.cpp: the mappers ChRaBaRoCo and RoBaRaCoCh, and
-- src/base/utils.h: `calc_log2` and `slice_lower_bits`. An address is not negative.
use aim_simulator.Base.{
  ℕ, zero, suc, ◌+◌, ◌-◌, ◌*◌, ◌/◌, ◌%◌, ◌^◌, ◌==◌, List, [], ◌∷◌, map, ℤ, pos, minus_one, Result,
  ok, err, undefined, ltb, length, set, get_or, resize, if◌then◌else◌,
}

-- The loop `while ((val >>= 1)) n++`, with fuel.
unfoldable pub log2_from : ℕ → ℕ → ℕ
log2_from zero val = 0
log2_from (suc fuel) val =
    let rest = log2_from fuel (val / 2) in if val / 2 == 0 then 0 else 1 + rest

-- `calc_log2`: each round halves the value, so the value is fuel enough.
unfoldable pub calc_log2 : ℕ → ℕ
calc_log2 val = log2_from val val

-- `slice_lower_bits`: the bits, and the address after it.
abbrev pub slice_lower_bits : ℕ → ℕ → ℕ × ℕ
slice_lower_bits addr bits = (addr % 2 ^ bits, addr / 2 ^ bits)

-- The state of a mapper.
pub record Mapper : Type 0 where
  pub addr_bits : List ℕ
  pub tx_offset : ℕ
  pub row_bits_idx : ℕ

-- `m_num_levels`.
abbrev pub num_levels : Mapper → ℕ
num_levels m = length m.addr_bits

-- `setup`, from the counts of the organization (with at least one level), the prefetch size, the
-- channel width and the number of the row level. A column with fewer bits than the prefetch takes
-- would be sliced by a negative number of bits.
unfoldable pub setup : List ℕ → ℕ → ℕ → ℕ → Result Mapper
setup count prefetch width row =
    let bits = map calc_log2 count in
    let last = length bits - 1 in
    let column = get_or bits last 0 in
    let offset = calc_log2 (prefetch * width / 8) in
    if ltb column (calc_log2 prefetch)
    then err undefined
    else ok (record {
      addr_bits = set bits last (column - calc_log2 prefetch);
      tx_offset = offset;
      row_bits_idx = row;
    })

-- Slices for the levels in the order of the list.
unfoldable pub slice_levels : List ℕ → List ℕ → ℕ → List ℤ → List ℤ × ℕ
slice_levels bits [] addr v = (v, addr)
slice_levels bits (l ∷ ls) addr v =
    let s = slice_lower_bits addr (get_or bits l 0) in slice_levels bits ls s.1 (set v l (pos s.0))

-- The levels below `n`, from the last one down, and from `i` up with `n` rounds left.
unfoldable pub count_down : ℕ → List ℕ
count_down zero = []
count_down (suc n) = n ∷ count_down n

unfoldable pub count_up : ℕ → ℕ → List ℕ
count_up i zero = []
count_up i (suc n) = i ∷ count_up (i + 1) n

abbrev pub charabaroco_order : Mapper → List ℕ
charabaroco_order m = count_down (num_levels m)

abbrev pub robaracoch_order : Mapper → List ℕ
robaracoch_order m = 0 ∷ (num_levels m - 1) ∷ count_up 1 m.row_bits_idx

-- `ChRaBaRoCo::apply` and `RoBaRaCoCh::apply`: the new address vector.
unfoldable pub apply_charabaroco : Mapper → ℕ → List ℤ → List ℤ
apply_charabaroco m addr v =
    (slice_levels m.addr_bits (charabaroco_order m) (addr / 2 ^ m.tx_offset)
      (resize v (num_levels m) minus_one)).0

unfoldable pub apply_robaracoch : Mapper → ℕ → List ℤ → List ℤ
apply_robaracoch m addr v =
    (slice_levels m.addr_bits (robaracoch_order m) (addr / 2 ^ m.tx_offset)
      (resize v (num_levels m) minus_one)).0
