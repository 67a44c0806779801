-- ===== src/System/AddrMap.antt =====
-- src/memory_system/impl/aim_DRAM_system.cpp, `apply_addr_mapp`: a bank index becomes a device
-- address.
use aim_simulator.Base.{
  ℕ, ◌*◌, ◌/◌, ◌%◌, ◌||◌, Bool, List, ℤ, pos, minus_one, pos_part, ltb_ℤ, leb_ℤ, eqb_ℤ, Result, ok,
  err, exit_error, ◌>>=◌, set, resize, if◌then◌else◌,
}
use aim_simulator.Mask.Bits.{max_channel_count}
use aim_simulator.Request.{Request}

-- What the function reads of the DRAM: the level numbers of `m_levels`, and two level sizes.
pub record Organization : Type 0 where
  pub num_levels : ℕ
  pub has_rank : Bool
  pub channel_level : ℕ
  pub rank_level : ℕ
  pub bankgroup_level : ℕ
  pub bank_level : ℕ
  pub row_level : ℕ
  pub column_level : ℕ
  pub num_bankgroups : ℤ
  pub banks_per_bankgroup : ℤ

-- The product and quotients of `int`s that are tested to be positive first.
abbrev num_banks : Organization → ℤ
num_banks o = pos (pos_part o.num_bankgroups * pos_part o.banks_per_bankgroup)

-- The branch on `bank_index`: the address vector with bank group and bank.
unfoldable pub set_bank : Organization → Request → List ℤ → Result (List ℤ)
set_bank o req v =
    if eqb_ℤ req.bank_index minus_one
    then ok (set (set v o.bankgroup_level minus_one) o.bank_level minus_one)
    else if leb_ℤ o.num_bankgroups (pos 0) || leb_ℤ o.banks_per_bankgroup (pos 0)
    then err exit_error
    else if ltb_ℤ req.bank_index (pos 0) || leb_ℤ (num_banks o) req.bank_index
    then err exit_error
    else ok (
        set
          (set v o.bankgroup_level (pos (pos_part req.bank_index / pos_part o.banks_per_bankgroup)))
          o.bank_level (pos (pos_part req.bank_index % pos_part o.banks_per_bankgroup)))

-- The channel and rank entries.
unfoldable pub set_channel : Organization → ℤ → List ℤ → List ℤ
set_channel o channel_id v =
    let w = set v o.channel_level channel_id in if o.has_rank then set w o.rank_level (pos 0) else w

unfoldable pub apply_addr_mapp : Organization → Request → ℤ → Result Request
apply_addr_mapp o req channel_id =
    if ltb_ℤ channel_id (pos 0) || leb_ℤ (pos max_channel_count) channel_id
    then err exit_error
    else do
      v ← set_bank o req (set_channel o channel_id (resize req.addr_vec o.num_levels minus_one))
      ok (record req {
        addr_vec = set (set v o.row_level req.row_addr) o.column_level req.col_addr;
      })
