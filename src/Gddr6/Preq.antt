-- ===== src/Gddr6/Preq.antt =====
-- src/dram/lambdas/preq.h: the prerequisites that GDDR6 uses.
use aim_simulator.Base.{
  Bool, true, false, List, [], ◌∷◌, ℤ, ◌&&◌, ◌||◌, not, Result, ok, err, exit_error, if◌then◌else◌,
}
use aim_simulator.Gddr6.Commands.{Command, act, prea, pre, act16}
use aim_simulator.Gddr6.Node.{
  Node, NodeState, opened, closed, power_up, not_applicable, BankGroup, Channel, level_at, has_row,
}

-- `Preq::Bank` and `Preq::Channel`.
unfoldable pub require_row_open : Command → List ℤ → Node → NodeState → Result Command
require_row_open cmd v n closed = ok act
require_row_open cmd v n opened = ok (if has_row (level_at v 3) n.row_state then cmd else pre)
require_row_open cmd v n power_up = err exit_error
require_row_open cmd v n not_applicable = err exit_error

-- `bank->m_state == T::m_states["Closed"]`.
abbrev pub is_closed : NodeState → Bool
is_closed closed = true
is_closed opened = false
is_closed power_up = false
is_closed not_applicable = false

abbrev pub all_banks_closed : List Node → Bool
all_banks_closed [] = true
all_banks_closed (n ∷ ns) = is_closed n.state && all_banks_closed ns

abbrev pub all_groups_closed : List BankGroup → Bool
all_groups_closed [] = true
all_groups_closed (g ∷ gs) = all_banks_closed g.banks && all_groups_closed gs

unfoldable pub require_all_banks_closed : Command → Channel → Command
require_all_banks_closed cmd c = if all_groups_closed c.bankgroups then cmd else prea

-- Whether a bank that is not closed lacks the row: the scan stops there.
abbrev pub other_row : ℤ → List Node → Bool
other_row r [] = false
other_row r (n ∷ ns) = (not (is_closed n.state) && not (has_row r n.row_state)) || other_row r ns

abbrev pub other_row_in : ℤ → List BankGroup → Bool
other_row_in r [] = false
other_row_in r (g ∷ gs) = other_row r g.banks || other_row_in r gs

abbrev pub any_closed : List Node → Bool
any_closed [] = false
any_closed (n ∷ ns) = is_closed n.state || any_closed ns

abbrev pub any_closed_in : List BankGroup → Bool
any_closed_in [] = false
any_closed_in (g ∷ gs) = any_closed g.banks || any_closed_in gs

unfoldable pub require_all_rows_open : Command → List ℤ → Channel → Command
require_all_rows_open cmd v c =
    if other_row_in (level_at v 3) c.bankgroups
    then prea
    else (if any_closed_in c.bankgroups then act16 else cmd)
