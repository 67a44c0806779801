-- ===== src/Controller/Choice.antt =====
-- The scheduler's choice (src/dram_controller/impl/scheduler/generic_scheduler.cpp).
use mathlib.Core.List.{append-nil, append_assoc}
use mathlib.Core.Path.{subst}
use aim_simulator.Base.{
  sym, ◌∙◌, length-append, All-append, ℕ, ◌+◌, ◌≤◌, ◌≡◌, refl, Bool, true, false, List, [], ◌∷◌,
  ◌++◌, map, some, length, get_elem?, All, arith, Bool-cases, inl, inr, pos_part, neg_part,
}
use aim_simulator.Request.{Request}
use aim_simulator.Request.Buffer.{ReqBuffer}
use aim_simulator.Controller.Device.{DramOps}
use aim_simulator.Controller.Scheduler.{
  is_ready, refresh_command, keeps_first, best_from, best_of, get_best_request,
}

between : (x y z : Bool) → (y ≡ true → x ≡ true) → (z ≡ true → y ≡ true) → x ≡ z → (x ≡ y) × (y ≡ z)
between true true z f g h = (refl, h)
between false false z f g h = (refl, h)
between true false true f g h = absurd (let e = g refl in ground arith)
between true false false f g h = absurd (ground arith)
between false true z f g h = absurd (let e = f refl in ground arith)

get_elem?-append {ℓ} :
    {A : Type ℓ} (xs ys : List A) (y : A) → get_elem? (xs ++ y ∷ ys) (length xs) ≡ some y
get_elem?-append [] ys y = refl
get_elem?-append (x ∷ xs) ys y = get_elem?-append xs ys y

All-map {ℓ κ ι} :
    {A : Type ℓ} (P : A → Type κ) (Q : A → Type ι)
    → ((a : A) → P a → Q a)
    → (xs : List A) → All P xs
    → All Q xs
All-map P Q f [] h = tt
All-map P Q f (x ∷ xs) h = (f x h.0, All-map P Q f xs h.1)

module _ (ops : DramOps) (d : ops.Dram) where
  -- `r` is as good a choice as `s`: ready if `s` is, and no younger where both are alike in that.
  pub record IsAsGood (r s : Request) : Type 0 where
    pub ready : is_ready ops d s ≡ true → is_ready ops d r ≡ true
    pub older :
        is_ready ops d r ≡ is_ready ops d s
        → pos_part r.arrive + neg_part s.arrive ≤ pos_part s.arrive + neg_part r.arrive

  IsAsGood-refl : (r : Request) → IsAsGood r r
  IsAsGood-refl r = record { ready = λ h. h; older = λ h. omega arith }

  IsAsGood-trans : (r s t : Request) → IsAsGood r s → IsAsGood s t → IsAsGood r t
  IsAsGood-trans r s t a b = record {
    ready = λ h. a.ready (b.ready h);
    older = λ h. let e = between _ _ _ a.ready b.ready h in omega (arith, a.older e.0, b.older e.1);
  }

  keeps_first-IsAsGood : (r s : Request) → keeps_first ops d r s ≡ true → IsAsGood r s
  unfolding keeps_first
  keeps_first-IsAsGood r s h = record { ready = λ e. ground arith; older = λ e. ground arith }

  keeps_second-IsAsGood : (r s : Request) → keeps_first ops d r s ≡ false → IsAsGood s r
  unfolding keeps_first
  keeps_second-IsAsGood r s h = record { ready = λ e. ground arith; older = λ e. ground arith }

  -- The loop keeps the best of the requests that it has seen.
  best_from-IsAsGood :
      (whole seen : List Request) (i : ℕ) (r : Request) (j : ℕ) (rest : List Request)
      → seen ++ rest ≡ whole
      → j ≡ length seen
      → get_elem? whole i ≡ some r
      → All (IsAsGood r) seen
      → (get_elem? whole (best_from ops d i r j rest).0 ≡ some (best_from ops d i r j rest).1)
        × All (IsAsGood (best_from ops d i r j rest).1) whole
  unfolding best_from
  best_from-IsAsGood whole seen i r j [] split at_end here good =
      let e : seen ≡ whole = sym (append-nil seen) ∙ split in
      (here, subst (All (IsAsGood r)) e good)
  best_from-IsAsGood whole seen i r j (next ∷ rest) split at_end here good =
      let split' : (seen ++ next ∷ []) ++ rest ≡ whole =
        append_assoc seen (next ∷ []) rest ∙ split in
      let at_end' : j + 1 ≡ length (seen ++ next ∷ []) =
        omega (arith, length-append seen (next ∷ [])) in
      let found : get_elem? whole j ≡ some next =
        rw (← split, at_end) (get_elem?-append seen rest next) in
      elim (Bool-cases (keeps_first ops d r next)) [
        | inl keep ↦
            rw (keep, best_from)
              (best_from-IsAsGood whole (seen ++ next ∷ []) i r (j + 1) rest split' at_end' here (
                All-append (IsAsGood r) seen (next ∷ []) good
                  (keeps_first-IsAsGood r next keep, tt)))
        | inr change ↦
            let better = keeps_second-IsAsGood r next change in
            rw (change, best_from)
              (best_from-IsAsGood whole (seen ++ next ∷ []) j next (j + 1) rest split' at_end' found
                (All-append (IsAsGood next) seen (next ∷ [])
                  (All-map (IsAsGood r) (IsAsGood next) (λ s. IsAsGood-trans next r s better) seen
                    good)
                  (IsAsGood-refl next, tt)))
      ]

  -- From a buffer that is not empty FRFCFS returns a request; it stands at the position that is
  -- returned, with its next command, and no request of the buffer is a better choice: it is ready if
  -- any is, and among those that are alike in that it arrived no later.
  pub get_best_request-IsAsGood :
      (b : ReqBuffer Request) (r : Request) (rest : List Request)
      → b.buffer ≡ r ∷ rest
      → (i : ℕ) × (q : Request) × ((get_best_request ops d b).1 ≡ some (i, q))
        × (get_elem? (get_best_request ops d b).0.buffer i ≡ some q)
        × All (IsAsGood q) (get_best_request ops d b).0.buffer
  unfolding get_best_request best_of
  get_best_request-IsAsGood b r rest e =
      let first = refresh_command ops d r in
      let others = map (refresh_command ops d) rest in
      let best =
        best_from-IsAsGood (first ∷ others) (first ∷ []) 0 first 1 others refl refl refl
          (IsAsGood-refl first, tt) in
      rw e (_, _, refl, best.0, best.1)
