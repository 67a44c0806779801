-- ===== src/Plugin/Guarded.antt =====
-- From its setup on, Graphene asks for the refresh of the victims of every row in time
-- (src/dram_controller/impl/plugin/graphene.cpp, `setup` and `update`).
use mathlib.Core.Path.{subst}
use aim_simulator.Base.{
  ℕ, zero, suc, ◌+◌, ◌-◌, ◌*◌, ◌%◌, ◌<◌, ◌≡◌, refl, ap, Bool, false, List, [], ℤ, sub_ℕ, eqb_ℤ,
  ◌==◌, Option, some, none, ok, >>=-ok, if◌then◌else◌, length, get_elem?, replicate, map,
  Bool-cases, inl, inr, arith,
}
use aim_simulator.Plugin.Table.{Table, find, total, IsDistinct, IsOrder}
use aim_simulator.Plugin.Graphene.{
  Graphene, Served, zeroed, target, opens, reset, update, dummies, setup,
}
use aim_simulator.Plugin.Estimate.{Events, since, started}
use aim_simulator.Plugin.Guarantee.{Reached-since}
use aim_simulator.Plugin.Landing.{is_some, opened, rest_Holds, on_activation-Holds}
use aim_simulator.Plugin.Period.{Holds, begun, reset-Holds}

module _ (order : Table → Table) (size threshold period : ℕ) (i : ℕ) where
  -- What the counters of bank `i` have seen after an update.
  abbrev pub seen : Graphene → Option Served → Bool → Events → Events
  seen g none refreshed es = begun order size threshold period g es
  seen g (some req) refreshed es =
      if opens g req
      then opened order size threshold period i (target g req.addr_vec) refreshed
          (begun order size threshold period g es)
      else begun order size threshold period g es

  -- A run of the plugin, with the activations of bank `i` since its counters were reset.
  pub data Run (start : Graphene) : Graphene → Events → Type 0 where
    set_up : Run start start []
    updated :
        {g g' : Graphene} {es : Events} (req : Option Served) {out : Option (List ℕ)}
        → Run start g es
        → update order g req ≡ ok (g', out)
        → Run start g' (seen g req (is_some out) es)

  module _ (visits : IsOrder order) where
    target-reset :
        (g g' : Graphene) (req : Served)
        → reset g ≡ ok g'
        → (target g' req.addr_vec ≡ target g req.addr_vec) × (opens g' req ≡ opens g req)
    unfolding reset target
    target-reset g g' req e = elim (Bool-cases (g.reset_period_clk == 0)) [
      | inl never ↦ absurd (let e1 = rw never at e in ground arith)
      | inr on ↦ elim (Bool-cases (g.clk % g.reset_period_clk == 0)) [
        | inl due ↦
            let e1 = rw (on, due) at e in
            let last : record g {
              clk = g.clk + 1;
              activation_count_table = map zeroed g.activation_count_table;
              spillover_counter = map (λ c. 0) g.spillover_counter;
            }
                ≡ g' =
              ground arith in
            rw (← last) (refl, refl)
        | inr later ↦
            let e1 = rw (on, later) at e in
            let last : record g { clk = g.clk + 1 } ≡ g' = ground arith in rw (← last) (refl, refl)
      ]
    ]

    update-Holds :
        (g g' : Graphene) (req : Option Served) (out : Option (List ℕ)) (es : Events)
        → update order g req ≡ ok (g', out)
        → Holds order size threshold period 0 g i es
        → Holds order size threshold period 0 g' i (seen g req (is_some out) es)
    unfolding update
    update-Holds g g' none out es e h =
        let (g1, r, e1) = >>=-ok (reset g) _ e in
        let last : g1 ≡ g' = ground arith in
        rest_Holds order size threshold period i g' _ (
          subst
            (λ x. Holds order size threshold period 1 x i (begun order size threshold period g es))
            last (reset-Holds order size threshold period visits g g1 i es r h))
    update-Holds g g' (some req) out es e h =
        let (g1, r, e1) = >>=-ok (reset g) _ e in
        let k = reset-Holds order size threshold period visits g g1 i es r h in
        let (aims, same) = target-reset g g1 req r in
        elim (Bool-cases (opens g req)) [
          | inl opening ↦
              rw (opening, ← aims)
                (on_activation-Holds order size threshold period i g1 g' req.addr_vec out _
                  (rw (same, opening) at e1) k)
          | inr other ↦
              let e2 = rw (same, other) at e1 in
              let last : g1 ≡ g' = ground arith in
              rw other (
                rest_Holds order size threshold period i g' _ (
                  subst
                    (λ x.
                      Holds order size threshold period 1 x i
                        (begun order size threshold period g es))
                    last k))
        ]

    pub Run-Holds :
        (start g : Graphene) (es : Events)
        → Holds order size threshold period 0 start i []
        → Run start g es
        → Holds order size threshold period 0 g i es
    Run-Holds start g es h set_up = h
    Run-Holds start g' es' h (updated {g} {es} req {out} before e) =
        update-Holds g g' req out es e (Run-Holds start g es h before)

get_elem?-replicate : {A : Type 0} (n i : ℕ) (a : A) → i < n → get_elem? (replicate n a) i ≡ some a
get_elem?-replicate zero i a h = absurd (omega arith)
get_elem?-replicate (suc n) zero a h = refl
get_elem?-replicate (suc n) (suc i) a h = get_elem?-replicate n i a (omega arith)

-- The dummy entries of `setup`.
find-dummies : (rows j k n : ℕ) → k < j → find (dummies rows j n) (sub_ℕ k rows) ≡ none
find-dummies rows j k zero h = refl
find-dummies rows j k (suc n) h =
    let apart : eqb_ℤ (sub_ℕ j rows) (sub_ℕ k rows) ≡ false = ground arith in
    rw apart (find-dummies rows (j + 1) k n (omega arith))

dummies-IsDistinct : (rows j n : ℕ) → IsDistinct (dummies rows j n)
dummies-IsDistinct rows j zero = tt
dummies-IsDistinct rows j (suc n) =
    (find-dummies rows (j + 1) j n (omega arith), dummies-IsDistinct rows (j + 1) n)

total-dummies : (rows j n : ℕ) → (total (dummies rows j n) ≡ 0) × (length (dummies rows j n) ≡ n)
total-dummies rows j zero = (refl, refl)
total-dummies rows j (suc n) =
    let r = total-dummies rows (j + 1) n in (ground (arith, r.0), ap suc r.1)

module _ (order : Table → Table) (visits : IsOrder order) where
  setup-Holds :
      (entries threshold period rank bank row : ℕ) (count : List ℕ) (banks rows i : ℕ)
      → i < banks
      → Holds order entries threshold period 0
          (setup entries threshold period rank bank row count banks rows)
          i
          []
  setup-Holds entries threshold period rank bank row count banks rows i h =
      let z = total-dummies rows 0 entries in
      record {
        bank = record { table = dummies rows 0 entries; spillover = 0 };
        table = get_elem?-replicate banks i (dummies rows 0 entries) h;
        spillover = get_elem?-replicate banks i 0 h;
        reached = started (dummies-IsDistinct rows 0 entries) z.1 z.0 refl;
        same_threshold = refl;
        same_period = refl;
        periods = 0;
        updates = 0;
        clock = omega arith;
        few = omega arith;
        within = omega arith;
      }

  -- When a reset period has less than (entries + 1) * (threshold - 1) cycles, in every run of the
  -- plugin from its setup on, no row of any bank is activated `threshold` times between two resets
  -- without a request to refresh its victims, whatever the commands and the order of the tables.
  pub Run-since :
      (entries threshold period rank bank row : ℕ) (count : List ℕ) (banks rows i : ℕ)
      (g : Graphene) (es : Events) (activated_row : ℤ)
      → i < banks
      → period < suc entries * (threshold - 1)
      → Run order entries threshold period i
          (setup entries threshold period rank bank row count banks rows)
          g
          es
      → since activated_row es < threshold
  Run-since entries threshold period rank bank row count banks rows i g es q h short run =
      let k =
        Run-Holds order entries threshold period i visits _ g es
          (setup-Holds entries threshold period rank bank row count banks rows i h) run in
      Reached-since order threshold entries visits k.bank es q
        (omega (arith, k.few, k.within, short)) k.reached
