-- ===== src/Gddr6/Channel.antt =====
-- src/dram/node.h, `update_states` and `get_preq_command`, for the tables that `set_actions` and
-- `set_preqs` of src/dram/impl/GDDR6.cpp fill, and the open rows of `issue_command`.
use aim_simulator.Base.{
  Bool, true, false, List, ℤ, pos_part, ltb_ℤ, pos, ◌||◌, ◌==◌, length, Option, some, none, Result,
  ok, undefined, or_fail, get_elem?, set, ◌>>=◌, if◌then◌else◌,
}
use aim_simulator.Gddr6.Commands.{
  channel, bankgroup, Command, act, prea, pre, rd, wr, rda, wra, ref_ab, act4, act16, pre4, mac,
  mac16, af16, ewmul16, rdcp, wrcp, wra16, is_at_scope,
}
use aim_simulator.Gddr6.Node.{Node, BankGroup, Channel, level_at}
use aim_simulator.Gddr6.Action
use aim_simulator.Gddr6.Preq

-- `m_actions`.
unfoldable pub channel_action : Command → List ℤ → Channel → Channel
channel_action wra16 v c = Action.pre_ab c
channel_action prea v c = Action.pre_ab c
channel_action act16 v c = Action.act_ab v c
channel_action _ v c = c

unfoldable pub bankgroup_action : Command → List ℤ → BankGroup → BankGroup
bankgroup_action pre4 v g = Action.pre4b g
bankgroup_action act4 v g = Action.act4b v g
bankgroup_action _ v g = g

unfoldable pub bank_action : Command → List ℤ → Node → Node
bank_action act v n = Action.bank_act v n
bank_action pre v n = Action.bank_pre n
bank_action rda v n = Action.bank_pre n
bank_action wra v n = Action.bank_pre n
bank_action _ v n = n

-- `update_states` of a bank, which has no children, of a bank group and of a channel. A child that
-- is not there is not defined behaviour.
unfoldable pub update_bank_states : Command → List ℤ → Node → Result Node
update_bank_states cmd v n = ok (bank_action cmd v n)

unfoldable pub update_bankgroup_states : Command → List ℤ → BankGroup → Result BankGroup
update_bankgroup_states cmd v g =
    let g' = bankgroup_action cmd v g in
    let child = level_at v 2 in
    if is_at_scope bankgroup cmd || length g'.banks == 0 || ltb_ℤ child (pos 0) then ok g' else (do
      n ← or_fail (get_elem? g'.banks (pos_part child)) undefined
      n' ← update_bank_states cmd v n
      ok (record g' { banks = set g'.banks (pos_part child) n' }))

unfoldable pub update_states : Command → List ℤ → Channel → Result Channel
update_states cmd v c =
    let c' = channel_action cmd v c in
    let child = level_at v 1 in
    if is_at_scope channel cmd || length c'.bankgroups == 0 || ltb_ℤ child (pos 0)
    then ok c'
    else (do
      g ← or_fail (get_elem? c'.bankgroups (pos_part child)) undefined
      g' ← update_bankgroup_states cmd v g
      ok (record c' { bankgroups = set c'.bankgroups (pos_part child) g' }))

-- `m_preqs`: no function is a `none`.
unfoldable pub channel_preq : Command → List ℤ → Channel → Option Command
channel_preq ref_ab v c = some (Preq.require_all_banks_closed ref_ab c)
channel_preq wra16 v c = some (Preq.require_all_rows_open wra16 v c)
channel_preq mac16 v c = some (Preq.require_all_rows_open mac16 v c)
channel_preq af16 v c = some (Preq.require_all_rows_open af16 v c)
channel_preq ewmul16 v c = some (Preq.require_all_rows_open ewmul16 v c)
channel_preq _ v c = none

unfoldable pub needs_row : Command → Bool
needs_row rd = true
needs_row wr = true
needs_row rda = true
needs_row wra = true
needs_row rdcp = true
needs_row wrcp = true
needs_row mac = true
needs_row _ = false

-- `get_preq_command` of a bank. A bank has no children: without a prerequisite it returns `true`,
-- which is 1, the number of PREA.
unfoldable pub bank_preq_command : Command → List ℤ → Node → Result Command
bank_preq_command cmd v n = if needs_row cmd then Preq.require_row_open cmd v n n.state else ok prea

-- Of a bank group, which has no prerequisites of its own.
unfoldable pub bankgroup_preq_command : Command → List ℤ → BankGroup → Result Command
bankgroup_preq_command cmd v g =
    let child = level_at v 2 in
    if length g.banks == 0
    then ok prea
    else (if ltb_ℤ child (pos 0) then ok cmd else (do
      n ← or_fail (get_elem? g.banks (pos_part child)) undefined
      bank_preq_command cmd v n))

abbrev pub preq_or : Option Command → Result Command → Result Command
preq_or (some p) rest = ok p
preq_or none rest = rest

unfoldable pub get_preq_command : Command → List ℤ → Channel → Result Command
get_preq_command cmd v c =
    let child = level_at v 1 in
    preq_or (channel_preq cmd v c) (
      if length c.bankgroups == 0
      then ok prea
      else (if ltb_ℤ child (pos 0) then ok cmd else (do
        g ← or_fail (get_elem? c.bankgroups (pos_part child)) undefined
        bankgroup_preq_command cmd v g)))
