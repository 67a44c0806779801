-- ===== src/Gddr6/AllBank.antt =====
-- Opening a row in every bank of a channel (src/dram/node.h, `update_states` and
-- `get_preq_command`, with the tables of src/dram/impl/GDDR6.cpp).
use aim_simulator.Base.{
  ℕ, zero, suc, ◌≡◌, refl, ap, ◌∙◌, Bool, true, false, List, [], ◌∷◌, map, ℤ, Bool-cases, inl, inr,
  some, ok, get_elem?, ◌>>=◌, if◌then◌else◌, arith,
}
use aim_simulator.Gddr6.Commands.{
  Command, command_scope, act, prea, pre, rd, wr, rda, wra, ref_ab, ref_pb, act4, act16, pre4, mac,
  mac16, af16, ewmul16, rdcp, wrcp, wrgb, rdmac16, rdaf16, wrmac16, wra16, tmod, sync, eoc, unknown,
}
use aim_simulator.Gddr6.Node.{Node, BankGroup, Channel, level_at, open_bank, close_bank}
use aim_simulator.Gddr6.Action.{act4b, pre4b, act_ab, pre_ab}
use aim_simulator.Gddr6.Preq.{
  other_row, other_row_in, any_closed, any_closed_in, require_all_rows_open,
}
use aim_simulator.Gddr6.Channel.{channel_action, update_states, channel_preq, get_preq_command}
use aim_simulator.Gddr6.Opening.{insert_row-has_row, IsBankOf}

-- The commands that want their row open in all banks.
unfoldable pub needs_all_rows : Command → Bool
needs_all_rows wra16 = true
needs_all_rows mac16 = true
needs_all_rows af16 = true
needs_all_rows ewmul16 = true
needs_all_rows _ = false

opened_banks :
    (r : ℤ) (ns : List Node)
    → (other_row r (map (open_bank r) ns) ≡ false) × (any_closed (map (open_bank r) ns) ≡ false)
unfolding open_bank
opened_banks r [] = (refl, refl)
opened_banks r (n ∷ ns) =
    let rest = opened_banks r ns in (rw (insert_row-has_row r n.row_state) rest.0, rest.1)

opened_groups :
    (v : List ℤ) (gs : List BankGroup)
    → (other_row_in (level_at v 3) (map (act4b v) gs) ≡ false)
      × (any_closed_in (map (act4b v) gs) ≡ false)
opened_groups v [] = (refl, refl)
opened_groups v (g ∷ gs) =
    let here = opened_banks (level_at v 3) g.banks in
    let rest = opened_groups v gs in (rw (here.0) rest.0, rw (here.1) rest.1)

closed_banks : (r : ℤ) (ns : List Node) → other_row r (map close_bank ns) ≡ false
unfolding close_bank
closed_banks r [] = refl
closed_banks r (n ∷ ns) = closed_banks r ns

closed_groups : (r : ℤ) (gs : List BankGroup) → other_row_in r (map pre4b gs) ≡ false
closed_groups r [] = refl
closed_groups r (g ∷ gs) = rw (closed_banks r g.banks) (closed_groups r gs)

closed_there :
    (ns : List Node) (b : ℕ) (n : Node)
    → get_elem? ns b ≡ some n
    → any_closed (map close_bank ns) ≡ true
unfolding close_bank
closed_there [] b n h = absurd (ground arith)
closed_there (m ∷ ns) b n h = refl

closed_group_there :
    (gs : List BankGroup) (g b : ℕ) (grp : BankGroup) (n : Node)
    → get_elem? gs g ≡ some grp
    → get_elem? grp.banks b ≡ some n
    → any_closed_in (map pre4b gs) ≡ true
closed_group_there [] g b grp n h k = absurd (ground arith)
closed_group_there (x ∷ gs) zero b grp n h k =
    let e : x ≡ grp = ground arith in rw (closed_there x.banks b n (rw e k)) refl
closed_group_there (x ∷ gs) (suc g) b grp n h k =
    elim (Bool-cases (any_closed (map close_bank x.banks))) [
      | inl t ↦ rw t refl
      | inr t ↦ rw t (closed_group_there gs g b grp n h k)
    ]

preq_of_all :
    (cmd : Command) (v : List ℤ) (c : Channel)
    → needs_all_rows cmd ≡ true
    → get_preq_command cmd v c ≡ ok (require_all_rows_open cmd v c)
unfolding needs_all_rows channel_preq get_preq_command
preq_of_all act v c h = absurd (ground arith)
preq_of_all prea v c h = absurd (ground arith)
preq_of_all pre v c h = absurd (ground arith)
preq_of_all rd v c h = absurd (ground arith)
preq_of_all wr v c h = absurd (ground arith)
preq_of_all rda v c h = absurd (ground arith)
preq_of_all wra v c h = absurd (ground arith)
preq_of_all ref_ab v c h = absurd (ground arith)
preq_of_all ref_pb v c h = absurd (ground arith)
preq_of_all act4 v c h = absurd (ground arith)
preq_of_all act16 v c h = absurd (ground arith)
preq_of_all pre4 v c h = absurd (ground arith)
preq_of_all mac v c h = absurd (ground arith)
preq_of_all mac16 v c h = refl
preq_of_all af16 v c h = refl
preq_of_all ewmul16 v c h = refl
preq_of_all rdcp v c h = absurd (ground arith)
preq_of_all wrcp v c h = absurd (ground arith)
preq_of_all wrgb v c h = absurd (ground arith)
preq_of_all rdmac16 v c h = absurd (ground arith)
preq_of_all rdaf16 v c h = absurd (ground arith)
preq_of_all wrmac16 v c h = absurd (ground arith)
preq_of_all wra16 v c h = refl
preq_of_all tmod v c h = absurd (ground arith)
preq_of_all sync v c h = absurd (ground arith)
preq_of_all eoc v c h = absurd (ground arith)
preq_of_all unknown v c h = absurd (ground arith)

update_states-act16 : (v : List ℤ) (c : Channel) → update_states act16 v c ≡ ok (act_ab v c)
unfolding update_states channel_action command_scope
update_states-act16 v c = refl

update_states-prea : (v : List ℤ) (c : Channel) → update_states prea v c ≡ ok (pre_ab c)
unfolding update_states channel_action command_scope
update_states-prea v c = refl

-- A command on all banks gets its row open everywhere: in a channel with a bank, the prerequisite
-- after PREA is ACT16; after ACT16 it is the command itself; and before either it is PREA exactly if
-- some bank is open without the row, or else ACT16 exactly if some bank is closed.
pub all_rows_protocol :
    (cmd : Command) (v : List ℤ) (c : Channel) (g b : ℕ) (grp : BankGroup) (n : Node)
    → needs_all_rows cmd ≡ true
    → IsBankOf c g b grp n
    → (get_preq_command cmd v c
        ≡ ok (
            if other_row_in (level_at v 3) c.bankgroups
            then prea
            else (if any_closed_in c.bankgroups then act16 else cmd)))
      × ((update_states prea v c >>= get_preq_command cmd v) ≡ ok act16)
      × ((update_states act16 v c >>= get_preq_command cmd v) ≡ ok cmd)
unfolding require_all_rows_open
all_rows_protocol cmd v c g b grp n needs h =
    let groups = opened_groups v c.bankgroups in
    let shut = closed_groups (level_at v 3) c.bankgroups in
    let some_shut = closed_group_there c.bankgroups g b grp n h.group_at h.bank_at in
    (
      preq_of_all cmd v c needs,
      rw (update_states-prea v c)
          (preq_of_all cmd v (pre_ab c) needs ∙ ap ok (rw (shut, some_shut) refl)),
      rw (update_states-act16 v c)
          (preq_of_all cmd v (act_ab v c) needs ∙ ap ok (rw (groups.0, groups.1) refl)),
    )
