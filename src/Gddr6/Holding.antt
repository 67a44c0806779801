-- ===== src/Gddr6/Holding.antt =====
-- Timing constraints hold commands back (src/dram/node.h, `update_timing`).
use aim_simulator.Base.{
  ◌≡◌, Bool, true, false, List, [], ◌∷◌, ℤ, pos, ◌+ℤ◌, ltb_ℤ, leb_ℤ, eqb_ℤ, ok, >>=-ok, All,
  Bool-cases, inl, inr, arith,
}
use aim_simulator.Gddr6.Commands.{Command, command_eq}
use aim_simulator.Gddr6.Node.{level_at}
use aim_simulator.Gddr6.Timing.{
  TimingCons, NodeTiming, raise_ready, hold_siblings, hold_from, hold_target, past_at, push_history,
  update_node_timing,
}

leb_ℤ-refl : (a : ℤ) → leb_ℤ a a ≡ true
leb_ℤ-refl a = ground arith

leb_ℤ-trans : (a b c : ℤ) → leb_ℤ a b ≡ true → leb_ℤ b c ≡ true → leb_ℤ a c ≡ true
leb_ℤ-trans a b c p q = ground arith

-- Every command has to wait at least as long.
abbrev pub IsLater : (Command → ℤ) → (Command → ℤ) → Type 0
IsLater r s = (k : Command) → leb_ℤ (r k) (s k) ≡ true

raise_ready-IsLater : (c : Command) (f : ℤ) (r : Command → ℤ) → IsLater r (raise_ready c f r)
unfolding raise_ready
raise_ready-IsLater c f r k = elim (Bool-cases (command_eq k c)) [
  | inl t ↦ elim (Bool-cases (ltb_ℤ (r k) f)) [
    | inl u ↦ rw (t, u) (ground arith)
    | inr u ↦ rw (t, u) (leb_ℤ-refl (r k))
  ]
  | inr t ↦ rw t (leb_ℤ-refl (r k))
]

raise_ready_self : (c : Command) (f : ℤ) (r : Command → ℤ) → leb_ℤ f (raise_ready c f r c) ≡ true
unfolding raise_ready
raise_ready_self c f r =
    let t : command_eq c c ≡ true = ground arith in
    elim (Bool-cases (ltb_ℤ (r c) f)) [
      | inl u ↦ rw (t, u) (leb_ℤ-refl f)
      | inr u ↦ rw (t, u) (ground arith)
    ]

hold_siblings-IsLater :
    (clk : ℤ) (ts : List TimingCons) (r : Command → ℤ) → IsLater r (hold_siblings clk ts r)
unfolding hold_siblings
hold_siblings-IsLater clk [] r k = leb_ℤ-refl (r k)
hold_siblings-IsLater clk (t ∷ ts) r k = elim (Bool-cases (t.is_sibling)) [
  | inl s ↦ rw s (
      leb_ℤ-trans (r k) (raise_ready t.cmd (clk +ℤ t.val) r k)
        (hold_siblings clk ts (raise_ready t.cmd (clk +ℤ t.val) r) k)
        (raise_ready-IsLater t.cmd (clk +ℤ t.val) r k)
        (hold_siblings-IsLater clk ts (raise_ready t.cmd (clk +ℤ t.val) r) k))
  | inr s ↦ rw s (hold_siblings-IsLater clk ts r k)
]

-- A command waits for a constraint's time after an issue.
abbrev pub IsHeld : ℤ → (Command → ℤ) → TimingCons → Type 0
IsHeld from r t = leb_ℤ (from +ℤ t.val) (r t.cmd) ≡ true

hold_siblings-IsHeld :
    (clk : ℤ) (ts : List TimingCons) (r : Command → ℤ)
    → All (λ t. t.is_sibling ≡ true → IsHeld clk (hold_siblings clk ts r) t) ts
unfolding hold_siblings
hold_siblings-IsHeld clk [] r = tt
hold_siblings-IsHeld clk (t ∷ ts) r = (
  (λ s. rw s (
      leb_ℤ-trans (clk +ℤ t.val) (raise_ready t.cmd (clk +ℤ t.val) r t.cmd)
        (hold_siblings clk ts (raise_ready t.cmd (clk +ℤ t.val) r) t.cmd)
        (raise_ready_self t.cmd (clk +ℤ t.val) r)
        (hold_siblings-IsLater clk ts (raise_ready t.cmd (clk +ℤ t.val) r) t.cmd))),
  hold_siblings-IsHeld clk ts _,
)

hold_from-IsLater : (t : TimingCons) (past : ℤ) (r : Command → ℤ) → IsLater r (hold_from t past r)
hold_from-IsLater t past r k = elim (Bool-cases (ltb_ℤ past (pos 0))) [
  | inl s ↦ rw s (leb_ℤ-refl (r k))
  | inr s ↦ rw s (raise_ready-IsLater t.cmd (past +ℤ t.val) r k)
]

hold_from-IsHeld :
    (t : TimingCons) (past : ℤ) (r : Command → ℤ)
    → ltb_ℤ past (pos 0) ≡ false
    → IsHeld past (hold_from t past r) t
hold_from-IsHeld t past r s = rw s (raise_ready_self t.cmd (past +ℤ t.val) r)

hold_target-IsLater :
    (history : List ℤ) (ts : List TimingCons) (r : Command → ℤ) {s : Command → ℤ}
    → hold_target history ts r ≡ ok s
    → IsLater r s
unfolding hold_target
hold_target-IsLater history [] r {s} h k =
    let e : r ≡ s = ground arith in rw (← e) (leb_ℤ-refl (r k))
hold_target-IsLater history (t ∷ ts) r {s} h k = elim (Bool-cases (t.is_sibling)) [
  | inl u ↦ hold_target-IsLater history ts r (rw u at h) k
  | inr u ↦
      let (past, _, h1) = >>=-ok (past_at history t.window) _ (rw u at h) in
      leb_ℤ-trans (r k) (hold_from t past r k) (s k) (hold_from-IsLater t past r k)
        (hold_target-IsLater history ts (hold_from t past r) h1 k)
]

-- A constraint of the node itself holds its command back from the issue that it counts from.
abbrev pub IsHeldFrom : List ℤ → (Command → ℤ) → TimingCons → Type 0
IsHeldFrom history s t =
    (past : ℤ)
    → t.is_sibling ≡ false
    → past_at history t.window ≡ ok past
    → ltb_ℤ past (pos 0) ≡ false
    → IsHeld past s t

hold_target-IsHeldFrom :
    (history : List ℤ) (ts : List TimingCons) (r : Command → ℤ) {s : Command → ℤ}
    → hold_target history ts r ≡ ok s
    → All (IsHeldFrom history s) ts
unfolding hold_target
hold_target-IsHeldFrom history [] r h = tt
hold_target-IsHeldFrom history (t ∷ ts) r {s} h = elim (Bool-cases (t.is_sibling)) [
  | inl u ↦ (
    (λ past own at_past there. absurd (ground arith)),
    hold_target-IsHeldFrom history ts r (rw u at h),
  )
  | inr u ↦
      let (p, e, h1) = >>=-ok (past_at history t.window) _ (rw u at h) in
      (
        (λ past own at_past there.
            let same : p ≡ past = let e' = rw at_past at e in ground arith in
            leb_ℤ-trans (past +ℤ t.val) (hold_from t past r t.cmd) (s t.cmd)
              (hold_from-IsHeld t past r there)
              (hold_target-IsLater history ts (hold_from t past r) (rw same at h1) t.cmd)),
        hold_target-IsHeldFrom history ts (hold_from t p r) h1,
      )
]

-- At a node, an update of the timing never makes a command ready earlier. For a node that the
-- address does not name, each constraint on siblings holds its command back for its time from now
-- on. For the one that it names, each other constraint holds its command back for its time from the
-- issue of the window that it counts from, if there is one; the newest issue is the one of now.
pub update_node_timing-IsHeld :
    (cons : List TimingCons) (cmd : Command) (v : List ℤ) (clk : ℤ) (n : NodeTiming)
    {m : NodeTiming} {target : Bool}
    → update_node_timing cons cmd v clk n ≡ ok (m, target)
    → IsLater n.cmd_ready_clk m.cmd_ready_clk
      × (target ≡ false → All (λ t. t.is_sibling ≡ true → IsHeld clk m.cmd_ready_clk t) cons)
      × (target ≡ true
          → All (IsHeldFrom (push_history clk (n.cmd_history cmd)) m.cmd_ready_clk) cons)
unfolding update_node_timing
update_node_timing-IsHeld cons cmd v clk n {m} {target} h =
    elim (Bool-cases (eqb_ℤ n.node_id (level_at v n.level))) [
      | inr other ↦
          let h1 = rw other at h in
          let last : hold_siblings clk cons n.cmd_ready_clk ≡ m.cmd_ready_clk = ground arith in
          let out : false ≡ target = ground arith in
          rw (← last, ← out)
            (
              hold_siblings-IsLater clk cons n.cmd_ready_clk,
              (λ e. hold_siblings-IsHeld clk cons n.cmd_ready_clk),
              (λ e. absurd (ground arith)),
            )
      | inl named ↦
          let history = push_history clk (n.cmd_history cmd) in
          let (ready, held, h1) =
            >>=-ok (hold_target history cons n.cmd_ready_clk) _ (rw named at h) in
          let last : ready ≡ m.cmd_ready_clk = ground arith in
          let out : true ≡ target = ground arith in
          rw (← last, ← out)
            (
              hold_target-IsLater history cons n.cmd_ready_clk held,
              (λ e. absurd (ground arith)),
              (λ e. hold_target-IsHeldFrom history cons n.cmd_ready_clk held),
            )
    ]
