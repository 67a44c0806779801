-- ===== src/Mapper/Slices.antt =====
-- The linear address mappers (src/addr_mapper/impl/linear_mappers.cpp) lose no bit of an address.
use native.Mathlib.Nat.{mod-add-div}
use aim_simulator.Base.{
  ℕ, zero, suc, ◌+◌, ◌-◌, ◌*◌, ◌/◌, ◌%◌, ◌^◌, ◌≤◌, ◌<◌, ◌≡◌, ◌≢◌, refl, ◌∙◌, List, [], ◌∷◌, ℤ, pos,
  pos_part, All, length, set, get_or, length-set, length-resize, get_or-set_self, get_or-set_ne,
  arith, minus_one,
}
use aim_simulator.Mapper.Linear.{
  slice_levels, count_down, count_up, Mapper, num_levels, charabaroco_order, robaracoch_order,
  apply_charabaroco, apply_robaracoch,
}

-- The value that the slices of the levels in an order have together, above them a rest.
unfoldable pub join : List ℕ → List ℕ → List ℤ → ℕ → ℕ
join bits [] v rest = rest
join bits (l ∷ ls) v rest =
    pos_part (get_or v l minus_one) + 2 ^ get_or bits l 0 * join bits ls v rest

-- No level twice, and all below a bound.
abbrev pub IsOrder : ℕ → List ℕ → Type 0
IsOrder n [] = Unit
IsOrder n (l ∷ ls) = (l < n) × All (λ k. k ≢ l) ls × IsOrder n ls

-- The levels that are not in the order are left alone.
slice_levels-other :
    (bits ls : List ℕ) (addr l : ℕ) (v : List ℤ)
    → All (λ k. k ≢ l) ls
    → get_or (slice_levels bits ls addr v).0 l minus_one ≡ get_or v l minus_one
unfolding slice_levels
slice_levels-other bits [] addr l v h = refl
slice_levels-other bits (k ∷ ls) addr l v h =
    slice_levels-other bits ls (addr / 2 ^ get_or bits k 0) l _ h.1
    ∙ get_or-set_ne v k l _ minus_one h.0

-- Slicing keeps the address: the slices and the rest make it up again.
pub join-slice_levels :
    (n : ℕ) (bits ls : List ℕ) (addr : ℕ) (v : List ℤ)
    → IsOrder n ls
    → length v ≡ n
    → join bits ls (slice_levels bits ls addr v).0 (slice_levels bits ls addr v).1 ≡ addr
unfolding slice_levels join
join-slice_levels n bits [] addr v o h = refl
join-slice_levels n bits (l ∷ ls) addr v o h =
    let w = 2 ^ get_or bits l 0 in
    let v' = set v l (pos (addr % w)) in
    let rest =
      join-slice_levels n bits ls (addr / w) v' o.2 (length-set v l (pos (addr % w)) ∙ h) in
    let kept : get_or (slice_levels bits ls (addr / w) v').0 l minus_one ≡ pos (addr % w) =
      slice_levels-other bits ls (addr / w) l v' o.1
      ∙ get_or-set_self v l (pos (addr % w)) minus_one (omega (arith, o.0, h)) in
    rw (kept, rest) (mod-add-div addr w)

All-weaken : (n : ℕ) (ls : List ℕ) → IsOrder n ls → IsOrder (suc n) ls
All-weaken n [] o = tt
All-weaken n (l ∷ ls) o = (omega (arith, o.0), o.1, All-weaken n ls o.2)

below : (n m : ℕ) → n ≤ m → All (λ k. k ≢ m) (count_down n)
unfolding count_down
below zero m h = tt
below (suc n) m h = ((λ e. omega (arith, e, h)), below n m (omega (arith, h)))

count_down-IsOrder : (n : ℕ) → IsOrder n (count_down n)
unfolding count_down
count_down-IsOrder zero = tt
count_down-IsOrder (suc n) =
    (omega arith, below n n (omega arith), All-weaken n (count_down n) (count_down-IsOrder n))

above : (i n m : ℕ) → m < i → All (λ k. k ≢ m) (count_up i n)
unfolding count_up
above i zero m h = tt
above i (suc n) m h = ((λ e. omega (arith, e, h)), above (i + 1) n m (omega (arith, h)))

beyond : (i n m : ℕ) → i + n ≤ m → All (λ k. k ≢ m) (count_up i n)
unfolding count_up
beyond i zero m h = tt
beyond i (suc n) m h = ((λ e. omega (arith, e, h)), beyond (i + 1) n m (omega (arith, h)))

count_up-IsOrder : (i n k : ℕ) → i + n ≤ k → IsOrder k (count_up i n)
unfolding count_up
count_up-IsOrder i zero k h = tt
count_up-IsOrder i (suc n) k h = (
  omega (arith, h),
  above (i + 1) n i (omega arith),
  count_up-IsOrder (i + 1) n k (omega (arith, h)),
)

-- ChRaBaRoCo and RoBaRaCoCh lose nothing of an address but its offset in a transaction and a rest
-- above all levels: the slices in the address vector make up the address, each with the weight of
-- the bits below it. For RoBaRaCoCh the row is not the first level and comes before the last one.
pub linear_lossless :
    (m : Mapper) (addr : ℕ) (v : List ℤ)
    → m.row_bits_idx + 1 < num_levels m
    → ((rest : ℕ) × (join m.addr_bits (charabaroco_order m) (apply_charabaroco m addr v) rest
          ≡ addr / 2 ^ m.tx_offset))
      × ((rest : ℕ) × (join m.addr_bits (robaracoch_order m) (apply_robaracoch m addr v) rest
            ≡ addr / 2 ^ m.tx_offset))
unfolding apply_charabaroco apply_robaracoch
linear_lossless m addr v h =
    let n = num_levels m in
    let sized = length-resize v n minus_one in
    let up : IsOrder n (robaracoch_order m) = (
      omega (arith, h),
      ((λ e. omega (arith, e, h)), above 1 m.row_bits_idx 0 (omega arith)),
      (
        omega (arith, h),
        beyond 1 m.row_bits_idx (n - 1) (omega (arith, h)),
        count_up-IsOrder 1 m.row_bits_idx n (omega (arith, h)),
      ),
    ) in
    (
      (
        _,
        join-slice_levels n m.addr_bits (charabaroco_order m) (addr / 2 ^ m.tx_offset) _
            (count_down-IsOrder n) sized,
      ),
      (_, join-slice_levels n m.addr_bits (robaracoch_order m) (addr / 2 ^ m.tx_offset) _ up sized),
    )
