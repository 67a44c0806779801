-- ===== src/Tests/Plugin.antt =====
-- Concrete inputs for the theorems on the plugins.
use aim_simulator.Base.{
  ℕ, ◌*◌, ◌≤◌, ◌<◌, refl, true, false, List, [], ◌∷◌, pos, Option, some, none, arith,
}
use aim_simulator.Plugin.Table.{Table, IsOrder}
use aim_simulator.Plugin.Graphene.{
  Graphene, Served, Bank, activate, activate_found, replace, count_up, dummies, setup, flatten,
  target, reset, on_activation, update,
}
use aim_simulator.Plugin.Estimate.{Events, since, started, activated}
use aim_simulator.Plugin.Guarantee.{Reached-spillover}
use aim_simulator.Plugin.Landing.{is_some}
use aim_simulator.Plugin.Guarded.{set_up, updated, seen, Run-since}
use aim_simulator.Tests.System.{value_of}

-- The tables are searched from their start.
abbrev in_order : Table → Table
in_order t = t

in_order-IsOrder : IsOrder in_order
in_order-IsOrder t d = (d, λ q. refl)

-- Two entries, of which a third row takes one after the other.
abbrev small_bank : Bank
small_bank = record { table = dummies 8 0 2; spillover = 0 }

abbrev busy_bank : Bank
busy_bank =
    (activate in_order 4 (activate in_order 4 (activate in_order 4 small_bank (pos 3)).0 (pos 5)).0
      (pos 6)).0

Reached-spillover_example : 3 * busy_bank.spillover ≤ 3
unfolding activate_found replace count_up
Reached-spillover_example =
    Reached-spillover in_order 4 2 in_order-IsOrder busy_bank
      ((pos 6, false) ∷ (pos 5, false) ∷ (pos 3, false) ∷ [])
      (activated (pos 6) (
        activated (pos 5)
          (activated (pos 3) (started {b = small_bank} (refl, (refl, tt)) refl refl refl))))

-- Two banks of 8 rows, two entries each, a threshold of 4 and a period of 8 cycles.
abbrev graphene : Graphene
graphene = setup 2 4 8 0 1 2 (1 ∷ 2 ∷ 8 ∷ []) 2 8

abbrev act : Option Served
act = some (record { is_opening = true; scope = 2; addr_vec = 0 ∷ 1 ∷ 5 ∷ [] })

abbrev updated_graphene : Graphene × Option (List ℕ)
updated_graphene = value_of (update in_order graphene act) (graphene, none)

abbrev seen_once : Events
seen_once = seen in_order 2 4 8 1 graphene act (is_some updated_graphene.1) []

Run-since_example : since (pos 5) seen_once < 4
unfolding flatten target reset on_activation update activate_found replace count_up
Run-since_example =
    Run-since in_order in_order-IsOrder 2 4 8 0 1 2 (1 ∷ 2 ∷ 8 ∷ []) 2 8 1 updated_graphene.0
      seen_once (pos 5) (omega arith) (omega arith) (updated act set_up refl)
