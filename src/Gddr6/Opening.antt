-- ===== src/Gddr6/Opening.antt =====
-- Opening a row in one bank (src/dram/node.h, `update_states` and `get_preq_command`, with the
-- tables of src/dram/impl/GDDR6.cpp).
use aim_simulator.Base.{
  ℕ, zero, suc, ◌≡◌, refl, ap, sym, ◌∙◌, true, false, List, [], ◌∷◌, ℤ, pos, eqb_ℤ_iff, ==_iff,
  ltb_ℤ, ◌==◌, Bool-cases, inl, inr, length, Option, some, none, ok, get_elem?, set, ◌>>=◌,
  if◌then◌else◌, arith, ◌≢◌, ◌⊎◌,
}
use aim_simulator.Gddr6.Commands.{
  Command, command_scope, act, prea, pre, rd, wr, rda, wra, ref_ab, ref_pb, act4, act16, pre4, mac,
  mac16, af16, ewmul16, rdcp, wrcp, wrgb, rdmac16, rdaf16, wrmac16, wra16, tmod, sync, eoc, unknown,
}
use aim_simulator.Gddr6.Node.{
  Node, opened, closed, BankGroup, Channel, has_row, insert_row, level_at, open_bank, close_bank,
}
use aim_simulator.Gddr6.Preq.{require_row_open}
use aim_simulator.Gddr6.Channel.{
  channel_action, bankgroup_action, bank_action, update_bank_states, update_bankgroup_states,
  update_states, channel_preq, needs_row, bank_preq_command, bankgroup_preq_command,
  get_preq_command,
}

get_elem?-set_self {ℓ} :
    {A : Type ℓ} (xs : List A) (i : ℕ) (x v : A)
    → get_elem? xs i ≡ some x
    → get_elem? (set xs i v) i ≡ some v
get_elem?-set_self [] i x v h = absurd (ground arith)
get_elem?-set_self (y ∷ xs) zero x v h = refl
get_elem?-set_self (y ∷ xs) (suc i) x v h = get_elem?-set_self xs i x v h

get_elem?-set_ne {ℓ} :
    {A : Type ℓ} (xs : List A) (i j : ℕ) (v : A) → i ≢ j → get_elem? (set xs i v) j ≡ get_elem? xs j
get_elem?-set_ne [] i j v h = refl
get_elem?-set_ne (y ∷ xs) zero zero v h = absurd (h refl)
get_elem?-set_ne (y ∷ xs) zero (suc j) v h = refl
get_elem?-set_ne (y ∷ xs) (suc i) zero v h = refl
get_elem?-set_ne (y ∷ xs) (suc i) (suc j) v h = get_elem?-set_ne xs i j v (λ e. h (ap suc e))

nonempty {ℓ} :
    {A : Type ℓ} (xs : List A) (i : ℕ) (x : A) → get_elem? xs i ≡ some x → (length xs == 0) ≡ false
nonempty [] i x h = absurd (ground arith)
nonempty (y ∷ xs) i x h = ground arith

-- The bank that an address of this form names.
abbrev pub bank_addr : ℤ → ℕ → ℕ → ℤ → ℤ → List ℤ
bank_addr ch g b row col = ch ∷ pos g ∷ pos b ∷ row ∷ col ∷ []

pub record IsBankOf (c : Channel) (g b : ℕ) (grp : BankGroup) (n : Node) : Type 0 where
  pub group_at : get_elem? c.bankgroups g ≡ some grp
  pub bank_at : get_elem? grp.banks b ≡ some n

-- The channel with another node for a bank.
abbrev pub with_bank : Channel → ℕ → BankGroup → ℕ → Node → Channel
with_bank c g grp b n = record c {
  bankgroups = set c.bankgroups g (record grp { banks = set grp.banks b n });
}

with_bank-IsBankOf :
    (c : Channel) (g b : ℕ) (grp : BankGroup) (n m : Node)
    → IsBankOf c g b grp n
    → IsBankOf (with_bank c g grp b m) g b (record grp { banks = set grp.banks b m }) m
with_bank-IsBankOf c g b grp n m h = record {
  group_at = get_elem?-set_self c.bankgroups g grp _ h.group_at;
  bank_at = get_elem?-set_self grp.banks b n m h.bank_at;
}

pub insert_row-has_row : (r : ℤ) (rows : List ℤ) → has_row r (insert_row r rows) ≡ true
insert_row-has_row r rows = elim (Bool-cases (has_row r rows)) [
  | inl t ↦ rw t t
  | inr t ↦ rw t (ground (arith, eqb_ℤ_iff r r))
]

is_bank_addr :
    (ch : ℤ) (g b : ℕ) (row col : ℤ)
    → (ltb_ℤ (level_at (bank_addr ch g b row col) 1) (pos 0) ≡ false)
      × (ltb_ℤ (level_at (bank_addr ch g b row col) 2) (pos 0) ≡ false)
is_bank_addr ch g b row col = (ground arith, ground arith)

-- ACT and PRE reach the bank of their address, and no other node.
update_states-act :
    (ch : ℤ) (g b : ℕ) (row col : ℤ) (c : Channel) (grp : BankGroup) (n : Node)
    → IsBankOf c g b grp n
    → update_states act (bank_addr ch g b row col) c ≡ ok (with_bank c g grp b (open_bank row n))
unfolding update_states update_bankgroup_states update_bank_states channel_action bankgroup_action
    bank_action command_scope
update_states-act ch g b row col c grp n h =
    let p = is_bank_addr ch g b row col in
    rw
      (
        nonempty c.bankgroups g grp h.group_at,
        p.0,
        h.group_at,
        nonempty grp.banks b n h.bank_at,
        p.1,
        h.bank_at,
      )
      refl

update_states-pre :
    (ch : ℤ) (g b : ℕ) (row col : ℤ) (c : Channel) (grp : BankGroup) (n : Node)
    → IsBankOf c g b grp n
    → update_states pre (bank_addr ch g b row col) c ≡ ok (with_bank c g grp b (close_bank n))
unfolding update_states update_bankgroup_states update_bank_states channel_action bankgroup_action
    bank_action command_scope
update_states-pre ch g b row col c grp n h =
    let p = is_bank_addr ch g b row col in
    rw
      (
        nonempty c.bankgroups g grp h.group_at,
        p.0,
        h.group_at,
        nonempty grp.banks b n h.bank_at,
        p.1,
        h.bank_at,
      )
      refl

no_channel_preq :
    (cmd : Command) (v : List ℤ) (c : Channel) → needs_row cmd ≡ true → channel_preq cmd v c ≡ none
unfolding channel_preq needs_row
no_channel_preq act v c h = refl
no_channel_preq prea v c h = refl
no_channel_preq pre v c h = refl
no_channel_preq rd v c h = refl
no_channel_preq wr v c h = refl
no_channel_preq rda v c h = refl
no_channel_preq wra v c h = refl
no_channel_preq ref_ab v c h = absurd (ground arith)
no_channel_preq ref_pb v c h = refl
no_channel_preq act4 v c h = refl
no_channel_preq act16 v c h = refl
no_channel_preq pre4 v c h = refl
no_channel_preq mac v c h = refl
no_channel_preq mac16 v c h = absurd (ground arith)
no_channel_preq af16 v c h = absurd (ground arith)
no_channel_preq ewmul16 v c h = absurd (ground arith)
no_channel_preq rdcp v c h = refl
no_channel_preq wrcp v c h = refl
no_channel_preq wrgb v c h = refl
no_channel_preq rdmac16 v c h = refl
no_channel_preq rdaf16 v c h = refl
no_channel_preq wrmac16 v c h = refl
no_channel_preq wra16 v c h = absurd (ground arith)
no_channel_preq tmod v c h = refl
no_channel_preq sync v c h = refl
no_channel_preq eoc v c h = refl
no_channel_preq unknown v c h = refl

-- A command that needs an open row asks its bank.
preq_of_row :
    (cmd : Command) (ch : ℤ) (g b : ℕ) (row col : ℤ) (c : Channel) (grp : BankGroup) (n : Node)
    → needs_row cmd ≡ true
    → IsBankOf c g b grp n
    → get_preq_command cmd (bank_addr ch g b row col) c
      ≡ require_row_open cmd (bank_addr ch g b row col) n n.state
unfolding get_preq_command bankgroup_preq_command bank_preq_command
preq_of_row cmd ch g b row col c grp n needs h =
    let p = is_bank_addr ch g b row col in
    rw
      (
        no_channel_preq cmd (bank_addr ch g b row col) c needs,
        nonempty c.bankgroups g grp h.group_at,
        p.0,
        h.group_at,
        nonempty grp.banks b n h.bank_at,
        p.1,
        h.bank_at,
        needs,
      )
      refl

-- The row of an address gets opened. A command that needs an open row, at an address whose bank is
-- closed or open, has as its prerequisite ACT if the bank is closed, PRE if another row is open,
-- and itself if the row is open; after PRE the prerequisite is ACT, and after ACT it is the command.
pub row_protocol :
    (cmd : Command) (ch : ℤ) (g b : ℕ) (row col : ℤ) (c : Channel) (grp : BankGroup) (n : Node)
    → needs_row cmd ≡ true
    → IsBankOf c g b grp n
    → let v = bank_addr ch g b row col in
      (n.state ≡ closed → get_preq_command cmd v c ≡ ok act)
      × (n.state ≡ opened
          → get_preq_command cmd v c ≡ ok (if has_row row n.row_state then cmd else pre))
      × ((update_states pre v c >>= get_preq_command cmd v) ≡ ok act)
      × ((update_states act v c >>= get_preq_command cmd v) ≡ ok cmd)
unfolding require_row_open open_bank close_bank
row_protocol cmd ch g b row col c grp n needs h =
    let ask = preq_of_row cmd ch g b row col c grp n needs h in
    let after_pre =
      preq_of_row cmd ch g b row col _ _ (close_bank n) needs
        (with_bank-IsBankOf c g b grp n (close_bank n) h) in
    let after_act =
      preq_of_row cmd ch g b row col _ _ (open_bank row n) needs
        (with_bank-IsBankOf c g b grp n (open_bank row n) h) in
    (
      λ s. rw (ask, s) refl,
      λ s. rw (ask, s) refl,
      rw (update_states-pre ch g b row col c grp n h) after_pre,
      rw (update_states-act ch g b row col c grp n h)
          (after_act ∙ ap ok (rw (insert_row-has_row row n.row_state) refl)),
    )

-- The bank at a bank group's and its own position.
abbrev pub bank_in : Option BankGroup → ℕ → Option Node
bank_in none j = none
bank_in (some grp) j = get_elem? grp.banks j

with_bank-others :
    (c : Channel) (g b i j : ℕ) (grp : BankGroup) (n m : Node)
    → IsBankOf c g b grp n
    → (i ≢ g) ⊎ (j ≢ b)
    → bank_in (get_elem? (with_bank c g grp b m).bankgroups i) j
      ≡ bank_in (get_elem? c.bankgroups i) j
with_bank-others c g b i j grp n m h other = elim (Bool-cases (i == g)) [
  | inl t ↦
      let e : i ≡ g = (==_iff i g).0 t in
      rw
        (
          e,
          get_elem?-set_self c.bankgroups g grp (record grp { banks = set grp.banks b m })
              h.group_at,
          h.group_at,
        )
        (get_elem?-set_ne grp.banks b j m (λ k. elim other [ inl p ↦ p e | inr p ↦ p (sym k) ]))
  | inr t ↦
      ap (λ o. bank_in o j)
        (get_elem?-set_ne c.bankgroups g i _
          (λ k. absurd (let u = (==_iff i g).1 (sym k) in ground arith)))
]

-- ACT opens the bank of its address and PRE closes it; neither changes another bank of the channel.
pub update_states-one_bank :
    (ch : ℤ) (g b i j : ℕ) (row col : ℤ) (c : Channel) (grp : BankGroup) (n : Node)
    → IsBankOf c g b grp n
    → (i ≢ g) ⊎ (j ≢ b)
    → let v = bank_addr ch g b row col in
      (e : Channel) × (f : Channel) × (update_states act v c ≡ ok e)
      × (update_states pre v c ≡ ok f)
      × (bank_in (get_elem? e.bankgroups g) b ≡ some (open_bank row n))
      × (bank_in (get_elem? f.bankgroups g) b ≡ some (close_bank n))
      × (bank_in (get_elem? e.bankgroups i) j ≡ bank_in (get_elem? c.bankgroups i) j)
      × (bank_in (get_elem? f.bankgroups i) j ≡ bank_in (get_elem? c.bankgroups i) j)
update_states-one_bank ch g b i j row col c grp n h other =
    let p = with_bank-IsBankOf c g b grp n (open_bank row n) h in
    let q = with_bank-IsBankOf c g b grp n (close_bank n) h in
    (
      with_bank c g grp b (open_bank row n),
      with_bank c g grp b (close_bank n),
      update_states-act ch g b row col c grp n h,
      update_states-pre ch g b row col c grp n h,
      rw (p.group_at) p.bank_at,
      rw (q.group_at) q.bank_at,
      with_bank-others c g b i j grp n (open_bank row n) h other,
      with_bank-others c g b i j grp n (close_bank n) h other,
    )
