-- ===== src/Plugin/Period.antt =====
-- The refreshes of victim rows over whole runs of the plugin
-- (src/dram_controller/impl/plugin/graphene.cpp, `update`).
use native.Mathlib.Nat.{div-add-mod', mul-mod_left}
use aim_simulator.Base.{
  ℕ, zero, suc, ◌+◌, ◌*◌, ◌/◌, ◌%◌, ◌≤◌, ◌<◌, ◌≡◌, ◌≢◌, refl, ap, ◌∙◌, true, false, List, [], ◌∷◌,
  ℤ, eqb_ℤ, ◌==◌, some, none, ok, if◌then◌else◌, length, get_elem?, map, Bool-cases, ==_iff, inl,
  inr, arith,
}
use aim_simulator.Plugin.Table.{Table, find, total, IsDistinct, IsOrder}
use aim_simulator.Plugin.Graphene.{Graphene, Bank, zeroed, reset}
use aim_simulator.Plugin.Estimate.{Events, Reached, started}
use aim_simulator.Plugin.Tracking.{Reached-Tracks}

get_elem?-map :
    {A B : Type 0} (f : A → B) (xs : List A) (i : ℕ) (a : A)
    → get_elem? xs i ≡ some a
    → get_elem? (map f xs) i ≡ some (f a)
get_elem?-map f [] i a h = absurd (ground arith)
get_elem?-map f (x ∷ xs) zero a h = let e : x ≡ a = ground arith in rw e refl
get_elem?-map f (x ∷ xs) (suc i) a h = get_elem?-map f xs i a h

find-zeroed : (t : Table) (q : ℤ) → find t q ≡ none → find (zeroed t) q ≡ none
find-zeroed [] q h = refl
find-zeroed (e ∷ t) q h = elim (Bool-cases (eqb_ℤ e.0 q)) [
  | inl same ↦ absurd (let h1 = rw same at h in ground arith)
  | inr other ↦ rw other (find-zeroed t q (rw other at h))
]

zeroed-IsDistinct : (t : Table) → IsDistinct t → IsDistinct (zeroed t)
zeroed-IsDistinct [] d = tt
zeroed-IsDistinct (e ∷ t) d = (find-zeroed t e.0 d.0, zeroed-IsDistinct t d.1)

total-zeroed : (t : Table) → (total (zeroed t) ≡ 0) × (length (zeroed t) ≡ length t)
total-zeroed [] = (refl, refl)
total-zeroed (e ∷ t) = let r = total-zeroed t in (ground (arith, r.0), ap suc r.1)

module _ (order : Table → Table) (size threshold period : ℕ) where
  -- The counters of bank `i` after the activations `es` since they were reset: at most one
  -- activation in each update, and an update resets them before `period` others end. `ahead` is 1
  -- within an update, before it counts its activation.
  pub record Holds (ahead : ℕ) (g : Graphene) (i : ℕ) (es : Events) : Type 0 where
    pub bank : Bank
    pub table : get_elem? g.activation_count_table i ≡ some bank.table
    pub spillover : get_elem? g.spillover_counter i ≡ some bank.spillover
    pub reached : Reached order threshold size bank es
    pub same_threshold : g.activation_threshold ≡ threshold
    pub same_period : g.reset_period_clk ≡ period
    pub periods : ℕ
    pub updates : ℕ
    pub clock : g.clk ≡ periods * period + updates
    pub few : length es + ahead ≤ updates
    pub within : updates ≤ period

  -- What the counters have seen once an update has begun.
  abbrev pub begun : Graphene → Events → Events
  begun g es = if g.clk % period == 0 then [] else es

  -- An update that does not reset the counters: the period is not over.
  in_period :
      (clk periods updates : ℕ)
      → (clk % period == 0) ≡ false
      → clk ≡ periods * period + updates
      → updates ≤ period
      → updates < period
  in_period clk periods updates h e w =
      let over : (suc periods * period) % period ≡ 0 = mul-mod_left (suc periods) period in
      elim (Bool-cases (updates == period)) [
        | inr less ↦ ground arith
        | inl full ↦ absurd (
            let all : suc periods * period ≡ clk =
              (let f : updates ≡ period = (==_iff updates period).0 full in omega (arith, f, e)) in
            let bad = rw all at over in ground arith)
      ]

  pub reset-Holds :
      (visits : IsOrder order) (g g' : Graphene) (i : ℕ) (es : Events)
      → reset g ≡ ok g'
      → Holds 0 g i es
      → Holds 1 g' i (begun g es)
  unfolding reset
  reset-Holds visits g g' i es e h = elim (Bool-cases (g.reset_period_clk == 0)) [
    | inl never ↦ absurd (let e1 = rw never at e in ground arith)
    | inr on ↦ elim (Bool-cases (g.clk % g.reset_period_clk == 0)) [
      | inl due ↦
          let due1 : (g.clk % period == 0) ≡ true = rw (← h.same_period) due in
          let e1 = rw (on, due) at e in
          let last : record g {
            clk = g.clk + 1;
            activation_count_table = map zeroed g.activation_count_table;
            spillover_counter = map (λ c. 0) g.spillover_counter;
          }
              ≡ g' =
            ground arith in
          let k = Reached-Tracks order threshold size visits h.bank es h.reached in
          let z = total-zeroed h.bank.table in
          let q = div-add-mod' g.clk period in
          rw (due1, ← last)
            (record {
              bank = record { table = zeroed h.bank.table; spillover = 0 };
              table = get_elem?-map zeroed g.activation_count_table i h.bank.table h.table;
              spillover = get_elem?-map (λ c. 0) g.spillover_counter i h.bank.spillover h.spillover;
              reached =
                  started (zeroed-IsDistinct h.bank.table k.distinct) (z.1 ∙ k.entries) z.0 refl;
              same_threshold = h.same_threshold;
              same_period = h.same_period;
              periods = g.clk / period;
              updates = 1;
              clock =
                  (let zero_left : g.clk % period ≡ 0 = (==_iff (g.clk % period) 0).0 due1 in
                    omega (arith, q, zero_left));
              few = omega arith;
              within =
                  (let p : period ≢ 0 =
                      (λ no. absurd (let s = h.same_period ∙ no in ground arith)) in
                    ground arith);
            })
      | inr later ↦
          let later1 : (g.clk % period == 0) ≡ false = rw (← h.same_period) later in
          let e1 = rw (on, later) at e in
          let last : record g { clk = g.clk + 1 } ≡ g' = ground arith in
          let room = in_period g.clk h.periods h.updates later1 h.clock h.within in
          rw (later1, ← last)
            (record {
              bank = h.bank;
              table = h.table;
              spillover = h.spillover;
              reached = h.reached;
              same_threshold = h.same_threshold;
              same_period = h.same_period;
              periods = h.periods;
              updates = h.updates + 1;
              clock = omega (arith, h.clock);
              few = omega (arith, h.few);
              within = omega (arith, room);
            })
    ]
  ]
