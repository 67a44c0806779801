-- ===== src/Gddr6/Action.antt =====
-- src/dram/lambdas/action.h: the actions that GDDR6 uses.
use aim_simulator.Base.{ℤ, List, map}
use aim_simulator.Gddr6.Node.{Node, BankGroup, Channel, level_at, open_bank, close_bank}

-- `Action::Bank`, `Action::BankGroup` and `Action::Channel` (ACTab and PREab).
abbrev pub bank_act : List ℤ → Node → Node
bank_act v n = open_bank (level_at v 3) n

abbrev pub bank_pre : Node → Node
bank_pre n = close_bank n

abbrev pub act4b : List ℤ → BankGroup → BankGroup
act4b v g = record g { banks = map (open_bank (level_at v 3)) g.banks }

abbrev pub pre4b : BankGroup → BankGroup
pre4b g = record g { banks = map close_bank g.banks }

abbrev pub act_ab : List ℤ → Channel → Channel
act_ab v c = record c { bankgroups = map (act4b v) c.bankgroups }

abbrev pub pre_ab : Channel → Channel
pre_ab c = record c { bankgroups = map pre4b c.bankgroups }
