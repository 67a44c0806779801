-- ===== src/Translation/Landing.antt =====
-- The loops that draw a page end once the generator gives a page that will do
-- (src/translation/impl/random_translation.cpp, `translate`).
use aim_simulator.Base.{
  ℕ, zero, suc, ◌-◌, ◌%◌, ◌<◌, ◌≡◌, refl, Bool, true, false, ℤ, Option, some, none, ◌==◌, ◌||◌, ok,
  ltb, get_elem?, set, Bool-cases, inl, inr, arith,
}
use aim_simulator.Request.{Request}
use aim_simulator.Processor.Cache.{shift_right}
use aim_simulator.Translation.Random.{
  Generator, PageMap, assign, RandomTranslation, draw, is_reserved, is_taken, new_page, page_of,
  core_of, physical, translate,
}

module _ (g : Generator) where
  -- The page of the draw number `k`.
  abbrev pub drawn : ℕ → ℕ → g.State → ℕ
  drawn n zero rng = (g.next rng).1 % n
  drawn n (suc k) rng = drawn n k (g.next rng).0

  draw-some :
      (is_bad : ℕ → Bool) (n k fuel : ℕ) (rng : g.State)
      → k < fuel
      → is_bad (drawn n k rng) ≡ false
      → (x : g.State × ℕ) × (draw g is_bad n fuel rng ≡ some x)
  unfolding draw
  draw-some is_bad n k zero rng h good = absurd (omega arith)
  draw-some is_bad n zero (suc fuel) rng h good =
      (((g.next rng).0, (g.next rng).1 % n), rw good refl)
  draw-some is_bad n (suc k) (suc fuel) rng h good =
      let y = g.next rng in
      let (x, e) = draw-some is_bad n k fuel y.0 (omega arith) good in
      elim (Bool-cases (is_bad (y.1 % n))) [
        | inl bad ↦ (x, rw bad e)
        | inr fine ↦ ((y.0, y.1 % n), rw fine refl)
      ]

  -- Within `fuel` draws the generator gives a page that is neither reserved nor taken.
  abbrev pub Lands : ℕ → RandomTranslation g → Type 0
  Lands fuel s = (k : ℕ) × (k < fuel) × (is_taken g s (drawn s.num_pages k s.allocator_rng) ≡ false)

  or_left : (a b : Bool) → (a || b) ≡ false → a ≡ false
  or_left true b h = absurd (ground arith)
  or_left false b h = refl

  new_page-total :
      (fuel : ℕ) (s : RandomTranslation g)
      → (s.num_pages == 0) ≡ false
      → Lands fuel s
      → (s' : RandomTranslation g) × (p : ℕ) × (new_page g fuel s ≡ ok (s', p))
  unfolding new_page
  new_page-total fuel s pages (k, soon, good) = elim (Bool-cases (s.num_free_physical_pages == 0)) [
    | inl full ↦
        let (x, e) =
          draw-some (is_reserved g s) s.num_pages k fuel s.allocator_rng soon (or_left _ _ good) in
        (record s { allocator_rng = x.0 }, x.1, rw (pages, full, e) refl)
    | inr left ↦
        let (x, e) = draw-some (is_taken g s) s.num_pages k fuel s.allocator_rng soon good in
        (
          record s { allocator_rng = x.0; num_free_physical_pages = s.num_free_physical_pages - 1 },
          x.1,
          rw (pages, left, e) refl,
        )
  ]

  page_of-total :
      (fuel : ℕ) (s : RandomTranslation g) (i : ℕ) (m : PageMap) (v : ℤ) (o : Option ℕ)
      → (s.num_pages == 0) ≡ false
      → Lands fuel s
      → (s' : RandomTranslation g) × (p : ℕ) × (page_of g fuel s i m v o ≡ ok (s', p))
  unfolding page_of
  page_of-total fuel s i m v (some p) pages lands = (s, p, refl)
  page_of-total fuel s i m v none pages lands =
      let (s', p, e) = new_page-total fuel s pages lands in
      (record s' { translation = set s'.translation i (assign m v p) }, p, rw e refl)

  pub translate-total :
      (fuel : ℕ) (s : RandomTranslation g) (req : Request) (i : ℕ) (m : PageMap)
      → core_of g req.source_id ≡ ok i
      → get_elem? s.translation i ≡ some m
      → s.offsetbits < 31
      → (s.num_pages == 0) ≡ false
      → Lands fuel s
      → (s' : RandomTranslation g) × (req' : Request) × (translate g fuel s req
          ≡ ok (s', req', true))
  unfolding translate
  translate-total fuel s req i m core here bits pages lands =
      let narrow : ltb s.offsetbits 31 ≡ true = ground arith in
      let v = shift_right req.addr s.offsetbits in
      let (s', p, e) = page_of-total fuel s i m v (m v) pages lands in
      (
        s',
        record req { addr = physical g s.offsetbits p req.addr },
        rw (core, here, e, narrow) refl,
      )
