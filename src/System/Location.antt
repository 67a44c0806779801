-- ===== src/System/Location.antt =====
-- The device address that `apply_addr_mapp` computes
-- (src/memory_system/impl/aim_DRAM_system.cpp).
use native.Mathlib.Nat.{div-lt_iff_lt-mul}
use aim_simulator.Base.{
  ℕ, ◌+◌, ◌*◌, ◌/◌, ◌%◌, ◌<◌, ◌≡◌, refl, ap, sym, ◌∙◌, true, false, List, ok, arith, length, ◌⊎◌,
  Bool-cases, inl, inr, ℤ, pos, negsuc, minus_one, pos_part, ltb_ℤ, leb_ℤ, eqb_ℤ, eqb_ℤ_iff, ◌||◌,
  >>=-ok, resize, set, get_or, length-set, length-resize, get_or-set_self, get_or-set_ne,
}
use aim_simulator.Mask.Bits.{max_channel_count}
use aim_simulator.Request.{Request, addr_at}
use aim_simulator.System.AddrMap.{Organization, set_bank, set_channel, apply_addr_mapp}

-- The level numbers stand in the order channel, rank (if there is one), bank group, bank, row,
-- column, within the address vector.
pub record IsLayout (o : Organization) : Type 0 where
  pub rank_between :
      o.has_rank ≡ true → (o.channel_level < o.rank_level) × (o.rank_level < o.bankgroup_level)
  pub channel_bankgroup : o.channel_level < o.bankgroup_level
  pub bankgroup_bank : o.bankgroup_level < o.bank_level
  pub bank_row : o.bank_level < o.row_level
  pub row_column : o.row_level < o.column_level
  pub column_in : o.column_level < o.num_levels

-- A bank index -1 stands for all banks; any other is split into bank group and bank, in range.
abbrev pub IsBankAt : Organization → ℤ → ℤ → ℤ → Type 0
IsBankAt o index x y =
    ((index ≡ minus_one) × (x ≡ minus_one) × (y ≡ minus_one))
    ⊎ ((g b groups per : ℕ) × (o.num_bankgroups ≡ pos groups)
        × (o.banks_per_bankgroup ≡ pos per)
        × (x ≡ pos g)
        × (y ≡ pos b)
        × (index ≡ pos (g * per + b))
        × (b < per)
        × (g < groups))

split_bank :
    (i n p : ℤ)
    → (leb_ℤ n (pos 0) || leb_ℤ p (pos 0)) ≡ false
    → (ltb_ℤ i (pos 0) || leb_ℤ (pos (pos_part n * pos_part p)) i) ≡ false
    → (groups per : ℕ) × (n ≡ pos groups)
      × (p ≡ pos per)
      × (i ≡ pos (pos_part i / pos_part p * per + pos_part i % pos_part p))
      × (pos_part i % pos_part p < per)
      × (pos_part i / pos_part p < groups)
split_bank (pos k) (pos groups) (pos per) pos_sizes in_range =
    let positive : 0 < per = ground arith in
    let below : k < groups * per = ground arith in
    (
      groups,
      per,
      refl,
      refl,
      ap pos (grind arith),
      grind arith,
      (div-lt_iff_lt-mul positive).1 below,
    )
split_bank (negsuc k) n p a b = absurd (ground arith)
split_bank (pos k) (negsuc n) p a b = absurd (ground arith)
split_bank (pos k) (pos n) (negsuc p) a b = absurd (ground arith)

set_bank_shape :
    (o : Organization) (req : Request) (base : List ℤ) {v : List ℤ}
    → set_bank o req base ≡ ok v
    → (x y : ℤ) × (v ≡ set (set base o.bankgroup_level x) o.bank_level y)
      × IsBankAt o req.bank_index x y
unfolding set_bank
set_bank_shape o req base {v} h = elim (Bool-cases (eqb_ℤ req.bank_index minus_one)) [
  | inl all ↦
      let h1 = rw all at h in
      (minus_one, minus_one, ground arith, inl ((eqb_ℤ_iff _ _).0 all, refl, refl))
  | inr one ↦
      let h1 = rw one at h in
      elim (Bool-cases (leb_ℤ o.num_bankgroups (pos 0) || leb_ℤ o.banks_per_bankgroup (pos 0))) [
        | inl bad ↦ absurd (let h2 = rw bad at h1 in ground arith)
        | inr sizes ↦
            let h2 = rw sizes at h1 in
            elim (Bool-cases (
              ltb_ℤ req.bank_index (pos 0)
              || leb_ℤ (pos (pos_part o.num_bankgroups * pos_part o.banks_per_bankgroup))
                  req.bank_index)) [
                    | inl out ↦ absurd (let h3 = rw out at h2 in ground arith)
                    | inr in_range ↦
                        let h3 = rw in_range at h2 in
                        let (groups, per, en, ep, ei, lb, lg) =
                          split_bank req.bank_index o.num_bankgroups o.banks_per_bankgroup sizes
                            in_range in
                        (
                          _,
                          _,
                          ground arith,
                          inr (_, _, groups, per, en, ep, refl, refl, ei, lb, lg),
                        )
                  ]
      ]
]

set_channel_shape :
    (o : Organization) (ch : ℤ) (base : List ℤ)
    → IsLayout o
    → o.num_levels ≡ length base
    → (length (set_channel o ch base) ≡ length base)
      × (get_or (set_channel o ch base) o.channel_level minus_one ≡ ch)
unfolding set_channel
set_channel_shape o ch base lay e =
    let w = set base o.channel_level ch in
    let long : length w ≡ length base = length-set base o.channel_level ch in
    let kept : get_or w o.channel_level minus_one ≡ ch =
      get_or-set_self base o.channel_level ch minus_one (omega arith) in
    elim (Bool-cases o.has_rank) [
      | inr none_here ↦ rw none_here (long, kept)
      | inl ranked ↦ rw ranked (
        length-set w o.rank_level (pos 0) ∙ long,
        get_or-set_ne w o.rank_level o.channel_level (pos 0) minus_one
              (λ q. absurd (let b = lay.rank_between ranked in omega arith))
            ∙ kept,
      )
    ]

-- The last four writes of the address vector, and what they leave.
writes :
    (o : Organization) (base : List ℤ) (x y r c : ℤ)
    → IsLayout o
    → o.num_levels ≡ length base
    → let v =
        set
          (set (set (set base o.bankgroup_level x) o.bank_level y) o.row_level r)
          o.column_level
          c in
      (get_or v o.channel_level minus_one ≡ get_or base o.channel_level minus_one)
      × (get_or v o.bankgroup_level minus_one ≡ x)
      × (get_or v o.bank_level minus_one ≡ y)
      × (get_or v o.row_level minus_one ≡ r)
      × (get_or v o.column_level minus_one ≡ c)
      × (length v ≡ o.num_levels)
writes o base x y r c lay e =
    let g = o.bankgroup_level in
    let b = o.bank_level in
    let w = o.row_level in
    let k = o.column_level in
    let h = o.channel_level in
    let v1 = set base g x in
    let v2 = set v1 b y in
    let v3 = set v2 w r in
    let l1 = length-set base g x in
    let l2 = length-set v1 b y in
    let l3 = length-set v2 w r in
    let l4 = length-set v3 k c in
    let m = minus_one in
    (
      get_or-set_ne v3 k h c m (omega arith)
          ∙ get_or-set_ne v2 w h r m (omega arith)
          ∙ get_or-set_ne v1 b h y m (omega arith)
          ∙ get_or-set_ne base g h x m (omega arith),
      get_or-set_ne v3 k g c m (omega arith)
          ∙ get_or-set_ne v2 w g r m (omega arith)
          ∙ get_or-set_ne v1 b g y m (omega arith)
          ∙ get_or-set_self base g x m (omega arith),
      get_or-set_ne v3 k b c m (omega arith)
          ∙ get_or-set_ne v2 w b r m (omega arith)
          ∙ get_or-set_self v1 b y m (omega arith),
      get_or-set_ne v3 k w c m (omega arith) ∙ get_or-set_self v2 w r m (omega arith),
      get_or-set_self v3 k c m (omega arith),
      omega arith,
    )

channel_range :
    (ch : ℤ)
    → (ltb_ℤ ch (pos 0) || leb_ℤ (pos max_channel_count) ch) ≡ false
    → (c : ℕ) × (ch ≡ pos c) × (c < max_channel_count)
channel_range (pos c) h = (c, refl, ground arith)
channel_range (negsuc c) h = absurd (ground arith)

-- Where `apply_addr_mapp` does not exit, the channel is below 32, the address vector has one entry
-- for each level, with channel, row and column as given, and bank group and bank are both -1 for
-- bank index -1 and otherwise the digits of the bank index, each in range.
pub apply_addr_mapp_location :
    (o : Organization) (req : Request) (ch : ℤ) {r : Request}
    → IsLayout o
    → apply_addr_mapp o req ch ≡ ok r
    → ((c : ℕ) × (ch ≡ pos c) × (c < max_channel_count))
      × (length r.addr_vec ≡ o.num_levels)
      × (addr_at r o.channel_level ≡ ch)
      × IsBankAt o req.bank_index (addr_at r o.bankgroup_level) (addr_at r o.bank_level)
      × (addr_at r o.row_level ≡ req.row_addr)
      × (addr_at r o.column_level ≡ req.col_addr)
unfolding apply_addr_mapp
apply_addr_mapp_location o req ch {r} lay h =
    elim (Bool-cases (ltb_ℤ ch (pos 0) || leb_ℤ (pos max_channel_count) ch)) [
      | inl bad ↦ absurd (let h1 = rw bad at h in ground arith)
      | inr fine ↦
          let start = resize req.addr_vec o.num_levels minus_one in
          let base = set_channel o ch start in
          let (v, e, h2) = >>=-ok (set_bank o req base) _ (rw fine at h) in
          let (x, y, shape, bank) = set_bank_shape o req base e in
          let long : o.num_levels ≡ length start =
            sym (length-resize req.addr_vec o.num_levels minus_one) in
          let c = set_channel_shape o ch start lay long in
          let (w0, w1, w2, w3, w4, w5) =
            writes o base x y req.row_addr req.col_addr lay (long ∙ sym c.0) in
          let vec : r.addr_vec
              ≡ set
                  (set (set (set base o.bankgroup_level x) o.bank_level y) o.row_level req.row_addr)
                  o.column_level req.col_addr =
            (let got : set (set v o.row_level req.row_addr) o.column_level req.col_addr
                  ≡ r.addr_vec =
                ground arith in
              sym got
              ∙ ap
                  (λ (z : List ℤ). set (set z o.row_level req.row_addr) o.column_level req.col_addr)
                  shape) in
          rw vec (channel_range ch fine, w5, w0 ∙ c.1, rw (w1, w2) bank, w3, w4)
    ]
