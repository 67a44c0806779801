-- ===== src/Plugin/Landing.antt =====
-- What an activation does to the counters of each bank
-- (src/dram_controller/impl/plugin/graphene.cpp, `update`).
use aim_simulator.Base.{
  ℕ, ◌≡◌, ◌≢◌, refl, sym, ◌∙◌, Bool, true, false, List, ◌∷◌, ℤ, pos, ◌==◌, Option, some, none,
  Result, ok, undefined, or_fail, >>=-ok, if◌then◌else◌, get_elem?, set, get_elem?-set_self,
  get_elem?-set_ne, Bool-cases, ==_iff, inl, inr, arith,
}
use aim_simulator.Plugin.Table.{Table}
use aim_simulator.Plugin.Graphene.{Graphene, target, activate, on_activation}
use aim_simulator.Plugin.Estimate.{Events, activated}
use aim_simulator.Plugin.Period.{Holds}

abbrev pub is_some : Option (List ℕ) → Bool
is_some none = false
is_some (some v) = true

some_of : {A : Type 0} {o : Option A} {a : A} → or_fail o undefined ≡ ok a → o ≡ some a
some_of {o = none} h = absurd (ground arith)
some_of {o = some b} h = ground arith

module _ (order : Table → Table) (size threshold period : ℕ) (i : ℕ) where
  -- The activations of bank `i` with the one that a command adds, if its target is in the bank.
  abbrev pub opened : Result (ℕ × ℕ) → Bool → Events → Events
  opened (Result.ok (flat, row)) refreshed es = if flat == i then (pos row, refreshed) ∷ es else es
  opened (Result.err e) refreshed es = es

  pub rest_Holds :
      (g : Graphene) (es : Events)
      → Holds order size threshold period 1 g i es
      → Holds order size threshold period 0 g i es
  rest_Holds g es h = record {
    bank = h.bank;
    table = h.table;
    spillover = h.spillover;
    reached = h.reached;
    same_threshold = h.same_threshold;
    same_period = h.same_period;
    periods = h.periods;
    updates = h.updates;
    clock = h.clock;
    few = omega (arith, h.few);
    within = h.within;
  }

  is_some_lem : (b : Bool) (v : List ℕ) → is_some (if b then some v else none) ≡ b
  is_some_lem true v = refl
  is_some_lem false v = refl

  -- The counters of the bank that is activated, and of any other.
  here_Holds :
      (g : Graphene) (row : ℤ) (es : Events) (h : Holds order size threshold period 1 g i es)
      → Holds order size threshold period 0
          (record g {
            activation_count_table =
                set g.activation_count_table i
                  (activate order g.activation_threshold h.bank row).0.table;
            spillover_counter =
                set g.spillover_counter i
                  (activate order g.activation_threshold h.bank row).0.spillover;
          })
          i
          ((row, (activate order g.activation_threshold h.bank row).1) ∷ es)
  here_Holds g row es h = record {
    bank = (activate order g.activation_threshold h.bank row).0;
    table = get_elem?-set_self g.activation_count_table i _ h.bank.table h.table;
    spillover = get_elem?-set_self g.spillover_counter i _ h.bank.spillover h.spillover;
    reached = rw h.same_threshold (activated row h.reached);
    same_threshold = h.same_threshold;
    same_period = h.same_period;
    periods = h.periods;
    updates = h.updates;
    clock = h.clock;
    few = omega (arith, h.few);
    within = h.within;
  }

  found_Holds :
      (g : Graphene) (j : ℕ) (t : Table) (s : ℕ) (row : ℤ) (es : Events)
      → j ≡ i
      → get_elem? g.activation_count_table j ≡ some t
      → get_elem? g.spillover_counter j ≡ some s
      → Holds order size threshold period 1 g i es
      → Holds order size threshold period 0
          (record g {
            activation_count_table =
                set g.activation_count_table j
                  (activate order g.activation_threshold
                    (record { table = t; spillover = s })
                    row).0.table;
            spillover_counter =
                set g.spillover_counter j
                  (activate order g.activation_threshold
                    (record { table = t; spillover = s })
                    row).0.spillover;
          })
          i
          ((
            row,
            (activate order g.activation_threshold (record { table = t; spillover = s }) row).1,
          )
            ∷ es)
  found_Holds g j t s row es key here there h =
      let here1 = rw key at here in
      let there1 = rw key at there in
      let et : h.bank.table ≡ t = (let e = sym h.table ∙ here1 in ground arith) in
      let ec : h.bank.spillover ≡ s = (let e = sym h.spillover ∙ there1 in ground arith) in
      rw (key, ← et, ← ec) (here_Holds g row es h)

  away_Holds :
      (g : Graphene) (j : ℕ) (t : Table) (s : ℕ) (es : Events)
      → j ≢ i
      → Holds order size threshold period 1 g i es
      → Holds order size threshold period 0
          (record g {
            activation_count_table = set g.activation_count_table j t;
            spillover_counter = set g.spillover_counter j s;
          })
          i
          es
  away_Holds g j t s es other h = record {
    bank = h.bank;
    table = get_elem?-set_ne g.activation_count_table j i t other ∙ h.table;
    spillover = get_elem?-set_ne g.spillover_counter j i s other ∙ h.spillover;
    reached = h.reached;
    same_threshold = h.same_threshold;
    same_period = h.same_period;
    periods = h.periods;
    updates = h.updates;
    clock = h.clock;
    few = omega (arith, h.few);
    within = h.within;
  }

  landed_Holds :
      (g g' : Graphene) (flat row : ℕ) (v : List ℕ) (out : Option (List ℕ)) (t : Table) (s : ℕ)
      (es : Events)
      → get_elem? g.activation_count_table flat ≡ some t
      → get_elem? g.spillover_counter flat ≡ some s
      → (record g {
        activation_count_table =
            set g.activation_count_table flat
              (activate order g.activation_threshold
                (record { table = t; spillover = s })
                (pos row)).0.table;
        spillover_counter =
            set g.spillover_counter flat
              (activate order g.activation_threshold
                (record { table = t; spillover = s })
                (pos row)).0.spillover;
      }
          ≡ g')
      → (if (activate order g.activation_threshold
            (record { table = t; spillover = s })
            (pos row)).1
          then some v
          else none)
        ≡ out
      → Holds order size threshold period 1 g i es
      → Holds order size threshold period 0 g' i (opened (ok (flat, row)) (is_some out) es)
  landed_Holds g g' flat row v out t s es here there last flag h = elim (Bool-cases (flat == i)) [
    | inr away ↦
        let other : flat ≢ i = (λ e4. ground arith) in
        rw (away, ← last) (away_Holds g flat _ _ es other h)
    | inl same ↦
        rw (same, ← last, ← flag, is_some_lem _ v)
          (found_Holds g flat t s (pos row) es ((==_iff flat i).0 same) here there h)
  ]

  pub on_activation-Holds :
      (g g' : Graphene) (v : List ℕ) (out : Option (List ℕ)) (es : Events)
      → on_activation order g v ≡ ok (g', out)
      → Holds order size threshold period 1 g i es
      → Holds order size threshold period 0 g' i (opened (target g v) (is_some out) es)
  unfolding on_activation
  on_activation-Holds g g' v out es e h =
      let (x, aim, e1) = >>=-ok (target g v) _ e in
      let (t, here, e2) =
        >>=-ok (or_fail (get_elem? g.activation_count_table x.0) undefined) _ e1 in
      let (s, there, e3) = >>=-ok (or_fail (get_elem? g.spillover_counter x.0) undefined) _ e2 in
      rw aim (
        landed_Holds g g' x.0 x.1 v out t s es (some_of here) (some_of there) (ground arith)
          (ground arith) h)
