-- ===== src/Gddr6/Timing.antt =====
-- src/dram/node.h: `update_timing` and `check_ready` at one node of the device, with the timing
-- constraints of its level for a command.
use aim_simulator.Base.{
  zero, suc, err, ℕ, Bool, true, false, List, [], ◌∷◌, ℤ, pos, minus_one, ◌+ℤ◌, ltb_ℤ, eqb_ℤ, ◌&&◌,
  not, Result, ok, undefined, or_fail, get_elem?, ◌>>=◌, if◌then◌else◌,
}
use aim_simulator.Gddr6.Commands.{Command, command_eq}
use aim_simulator.Gddr6.Node.{level_at}

-- `TimingConsEntry`: the command that is held back, for how long, from which issue on, and whether
-- siblings are held back.
pub record TimingCons : Type 0 where
  pub cmd : Command
  pub val : ℤ
  pub window : ℕ
  pub is_sibling : Bool

-- What a node keeps for timing: the cycle from which each command may be issued, and the cycles of
-- its last issues, the latest first.
pub record NodeTiming : Type 0 where
  pub node_id : ℤ
  pub level : ℕ
  pub cmd_ready_clk : Command → ℤ
  pub cmd_history : Command → List ℤ

-- `std::max(a, b)`.
abbrev pub max_clk : ℤ → ℤ → ℤ
max_clk a b = if ltb_ℤ a b then b else a

-- `m_cmd_ready_clk[cmd] = std::max(m_cmd_ready_clk[cmd], future)`.
unfoldable pub raise_ready : Command → ℤ → (Command → ℤ) → Command → ℤ
raise_ready cmd future ready k = if command_eq k cmd then max_clk (ready k) future else ready k

-- The loop for a node that the address does not name.
unfoldable pub hold_siblings : ℤ → List TimingCons → (Command → ℤ) → Command → ℤ
hold_siblings clk [] ready = ready
hold_siblings clk (t ∷ ts) ready =
    hold_siblings clk ts (if t.is_sibling then raise_ready t.cmd (clk +ℤ t.val) ready else ready)

-- `pop_back` and `push_front`.
abbrev pub but_last : List ℤ → List ℤ
but_last [] = []
but_last (x ∷ []) = []
but_last (x ∷ y ∷ ys) = x ∷ but_last (y ∷ ys)

unfoldable pub push_history : ℤ → List ℤ → List ℤ
push_history clk [] = []
push_history clk (x ∷ xs) = clk ∷ but_last (x ∷ xs)

-- `m_cmd_history[command][t.window - 1]`.
abbrev pub past_at : List ℤ → ℕ → Result ℤ
past_at history zero = err undefined
past_at history (suc w) = or_fail (get_elem? history w) undefined

-- What one constraint does to a target node, from the cycle of the issue that it counts from; a
-- negative cycle says that there were not as many issues yet.
abbrev pub hold_from : TimingCons → ℤ → (Command → ℤ) → Command → ℤ
hold_from t past ready =
    if ltb_ℤ past (pos 0) then ready else raise_ready t.cmd (past +ℤ t.val) ready

-- The loop for the target, with the command's history. A history that is too short is not defined
-- behaviour.
unfoldable pub hold_target : List ℤ → List TimingCons → (Command → ℤ) → Result (Command → ℤ)
hold_target history [] ready = ok ready
hold_target history (t ∷ ts) ready =
    if t.is_sibling
    then hold_target history ts ready
    else (do past ← past_at history t.window; hold_target history ts (hold_from t past ready))

-- `update_timing` without its recursion: the node, and whether it goes on to the children.
unfoldable pub update_node_timing :
    List TimingCons → Command → List ℤ → ℤ → NodeTiming → Result (NodeTiming × Bool)
update_node_timing cons cmd v clk n =
    if not (eqb_ℤ n.node_id (level_at v n.level))
    then ok (record n { cmd_ready_clk = hold_siblings clk cons n.cmd_ready_clk }, false)
    else (do
      let history = push_history clk (n.cmd_history cmd)
      ready ← hold_target history cons n.cmd_ready_clk
      ok (
        record n {
          cmd_ready_clk = ready;
          cmd_history = λ k. if command_eq k cmd then history else n.cmd_history k;
        },
        true,
      ))

-- The test of `check_ready` at a node.
unfoldable pub is_node_ready : NodeTiming → Command → ℤ → Bool
is_node_ready n cmd clk =
    not (not (eqb_ℤ (n.cmd_ready_clk cmd) minus_one) && ltb_ℤ clk (n.cmd_ready_clk cmd))
