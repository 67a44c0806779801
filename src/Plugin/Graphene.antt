-- ===== src/Plugin/Graphene.antt =====
-- src/dram_controller/impl/plugin/graphene.cpp: the counters of row activations, and the refreshes of
-- the victims of a row that they ask for.
use aim_simulator.Base.{
  ℕ, zero, suc, ◌+◌, ◌-◌, ◌*◌, ◌%◌, Bool, true, false, List, [], ◌∷◌, ℤ, pos, sub_ℕ, ◌==◌, leb,
  ◌&&◌, Option, some, none, Result, ok, err, undefined, or_fail, ◌>>=◌, if◌then◌else◌, get_elem?,
  set, replicate, map,
}
use aim_simulator.Plugin.Table.{Table, find, assign, erase, first_with}

-- The plugin's counters and the values that `setup` computes; `count` is the organization of the
-- DRAM. `clk` is `m_clk` + 1: the updates so far.
pub record Graphene : Type 0 where
  pub clk : ℕ
  pub activation_threshold : ℕ
  pub reset_period_clk : ℕ
  pub rank_level : ℕ
  pub bank_level : ℕ
  pub row_level : ℕ
  pub count : List ℕ
  pub activation_count_table : List Table
  pub spillover_counter : List ℕ

-- The request that the controller served: what the DRAM's tables say of its command, and its
-- addresses. A command that opens a row has an address at every level.
pub record Served : Type 0 where
  pub is_opening : Bool
  pub scope : ℕ
  pub addr_vec : List ℕ

-- The counters of one bank.
pub record Bank : Type 0 where
  pub table : Table
  pub spillover : ℕ

-- Every count of a table to 0.
abbrev pub zeroed : Table → Table
zeroed [] = []
zeroed (e ∷ t) = (e.0, 0) ∷ zeroed t

-- `flat_bank_id`: the loop from level `rank_level` + n - 1 down to `rank_level`.
unfoldable pub flatten : List ℕ → List ℕ → ℕ → ℕ → ℕ → ℕ → Result ℕ
flatten count addr_vec rank_level zero flat accumulated = ok flat
flatten count addr_vec rank_level (suc n) flat accumulated = do
  size ← or_fail (get_elem? count (rank_level + n + 1)) undefined
  a ← or_fail (get_elem? addr_vec (rank_level + n)) undefined
  flatten count addr_vec rank_level n (flat + a * (accumulated * size)) (accumulated * size)

module _ (order : Table → Table) (threshold : ℕ) where
  -- The row is not in the table: it takes the place of an entry that the spillover counter has caught
  -- up with, or is counted by the spillover counter.
  unfoldable pub replace : Bank → ℤ → Option ℤ → Bank
  replace b row (some to_remove) = record b {
    table = assign (erase b.table to_remove) row (b.spillover + 1);
  }
  replace b row none = record b { spillover = b.spillover + 1 }

  -- The row is in the table with this count; whether its victims are refreshed.
  unfoldable pub count_up : Bank → ℤ → ℕ → Bank × Bool
  count_up b row c =
      if leb threshold (c + 1)
      then (record b { table = assign (assign b.table row (c + 1)) row b.spillover }, true)
      else (record b { table = assign b.table row (c + 1) }, false)

  -- An activation of a row of the bank.
  unfoldable pub activate_found : Bank → ℤ → Option ℕ → Bank × Bool
  activate_found b row none = (replace b row (first_with b.spillover (order b.table)), false)
  activate_found b row (some c) = count_up b row c

  abbrev pub activate : Bank → ℤ → Bank × Bool
  activate b row = activate_found b row (find b.table row)

-- The start of `update`: the clock, and the reset.
unfoldable pub reset : Graphene → Result Graphene
reset g =
    if g.reset_period_clk == 0
    then err undefined
    else if g.clk % g.reset_period_clk == 0
    then ok (record g {
      clk = g.clk + 1;
      activation_count_table = map zeroed g.activation_count_table;
      spillover_counter = map (λ c. 0) g.spillover_counter;
    })
    else ok (record g { clk = g.clk + 1 })

-- The bank and the row that a command opens.
unfoldable pub target : Graphene → List ℕ → Result (ℕ × ℕ)
target g addr_vec = do
  bank ← or_fail (get_elem? addr_vec g.bank_level) undefined
  flat ← flatten g.count addr_vec g.rank_level (g.bank_level - g.rank_level) bank 1
  row ← or_fail (get_elem? addr_vec g.row_level) undefined
  ok (flat, row)

-- Whether a command opens a row.
abbrev pub opens : Graphene → Served → Bool
opens g req = req.is_opening && (req.scope == g.row_level)

module _ (order : Table → Table) where
  -- The counters of the bank that an opening command names. Beside the state it gives the address
  -- of the request that is sent with priority, if there is one.
  unfoldable pub on_activation : Graphene → List ℕ → Result (Graphene × Option (List ℕ))
  on_activation g addr_vec = do
    (flat, row) ← target g addr_vec
    table ← or_fail (get_elem? g.activation_count_table flat) undefined
    spillover ← or_fail (get_elem? g.spillover_counter flat) undefined
    let out =
        activate order g.activation_threshold (record { table = table; spillover = spillover })
          (pos row)
    ok (
      record g {
        activation_count_table = set g.activation_count_table flat out.0.table;
        spillover_counter = set g.spillover_counter flat out.0.spillover;
      },
      if out.1 then some addr_vec else none,
    )

  unfoldable pub update : Graphene → Option Served → Result (Graphene × Option (List ℕ))
  update g none = do g' ← reset g; ok (g', none)
  update g (some req) = do
    g' ← reset g
    if opens g' req then on_activation g' req.addr_vec else ok (g', none)

-- `setup`: the tables of the banks, with the dummy entries -rows, -rows + 1, …; `j` is the number of
-- entries so far.
abbrev pub dummies : ℕ → ℕ → ℕ → Table
dummies rows j zero = []
dummies rows j (suc n) = (sub_ℕ j rows, 0) ∷ dummies rows (j + 1) n

-- `setup`, for a DRAM with these levels, these sizes and this many banks.
abbrev pub setup :
    (num_table_entries activation_threshold reset_period_clk : ℕ)
    (rank_level bank_level row_level : ℕ) (count : List ℕ) (num_banks num_rows : ℕ)
    → Graphene
setup entries threshold period rank bank row count banks rows = record {
  clk = 0;
  activation_threshold = threshold;
  reset_period_clk = period;
  rank_level = rank;
  bank_level = bank;
  row_level = row;
  count = count;
  activation_count_table = replicate banks (dummies rows 0 entries);
  spillover_counter = replicate banks 0;
}
