-- ===== src/Gddr6/Node.antt =====
-- src/dram/node.h: the nodes of a GDDR6 device, and src/dram/lambdas: the actions and prerequisites
-- that GDDR6 uses.
use aim_simulator.Base.{
  ℕ, Bool, false, List, [], ◌∷◌, ℤ, minus_one, eqb_ℤ, ◌||◌, get_or, if◌then◌else◌,
}

-- `m_states`.
pub data NodeState : Type 0 where
  opened closed power_up not_applicable : NodeState

-- A node without its children and its timing: `row_state` lists the keys of `m_row_state`.
pub record Node : Type 0 where
  pub node_id : ℤ
  pub state : NodeState
  pub row_state : List ℤ

-- A node of each level above the row, with `m_child_nodes`.
pub record BankGroup : Type 0 where
  pub node : Node
  pub banks : List Node

pub record Channel : Type 0 where
  pub node : Node
  pub bankgroups : List BankGroup

-- `addr_vec[level]`.
abbrev pub level_at : List ℤ → ℕ → ℤ
level_at v i = get_or v i minus_one

-- `m_row_state.find(row) != m_row_state.end()`.
abbrev pub has_row : ℤ → List ℤ → Bool
has_row r [] = false
has_row r (x ∷ xs) = eqb_ℤ x r || has_row r xs

-- `m_row_state[row] = Opened`.
abbrev pub insert_row : ℤ → List ℤ → List ℤ
insert_row r rows = if has_row r rows then rows else r ∷ rows

-- The two assignments that every activation makes on a bank, and those of every precharge.
unfoldable pub open_bank : ℤ → Node → Node
open_bank r n = record n { state = opened; row_state = insert_row r n.row_state }

unfoldable pub close_bank : Node → Node
close_bank n = record n { state = closed; row_state = [] }
