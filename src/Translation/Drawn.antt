-- ===== src/Translation/Drawn.antt =====
-- The pages that are drawn for new entries (src/translation/impl/random_translation.cpp, `translate`).
use native.Mathlib.Nat.{mod-lt}
use aim_simulator.Base.{
  ℕ, zero, suc, ◌-◌, ◌%◌, ◌<◌, ◌≡◌, refl, Bool, false, Option, some, none, ◌==◌, ok, undefined,
  or_fail, >>=-ok, Bool-cases, inl, inr, arith,
}
use aim_simulator.Translation.Random.{
  Generator, RandomTranslation, draw, is_reserved, is_taken, new_page,
}

pub some_of : {A : Type 0} {o : Option A} {a : A} → or_fail o undefined ≡ ok a → o ≡ some a
some_of {o = none} h = absurd (ground arith)
some_of {o = some b} h = ground arith

module _ (g : Generator) where
  draw-lt :
      (is_bad : ℕ → Bool) (n fuel : ℕ) (rng : g.State) {rng' : g.State} {p : ℕ}
      → (n == 0) ≡ false
      → draw g is_bad n fuel rng ≡ some (rng', p)
      → p < n
  unfolding draw
  draw-lt is_bad n zero rng h e = absurd (ground arith)
  draw-lt is_bad n (suc fuel) rng {rng'} {p} h e =
      let x = g.next rng in
      elim (Bool-cases (is_bad (x.1 % n))) [
        | inl bad ↦ draw-lt is_bad n fuel x.0 h (rw bad at e)
        | inr good ↦
            let e1 = rw good at e in
            let same : x.1 % n ≡ p = ground arith in
            let some_pages : 0 < n = ground arith in
            let low : x.1 % n < n = mod-lt x.1 some_pages in ground (arith, low)
      ]

  -- A new page is a page of the memory; the maps stay.
  pub record IsPage (s s' : RandomTranslation g) (p : ℕ) : Type 0 where
    pub below : p < s.num_pages
    pub same_maps : s'.translation ≡ s.translation
    pub same_bits : s'.offsetbits ≡ s.offsetbits
    pub same_pages : s'.num_pages ≡ s.num_pages

  pub new_page-IsPage :
      (fuel : ℕ) (s s' : RandomTranslation g) (p : ℕ)
      → new_page g fuel s ≡ ok (s', p)
      → IsPage s s' p
  unfolding new_page
  new_page-IsPage fuel s s' p h = elim (Bool-cases (s.num_pages == 0)) [
    | inl nothing ↦ absurd (let h1 = rw nothing at h in ground arith)
    | inr some_pages ↦
        let h1 = rw some_pages at h in
        elim (Bool-cases (s.num_free_physical_pages == 0)) [
          | inl full ↦
              let (x, e, h2) =
                >>=-ok
                  (or_fail (draw g (is_reserved g s) s.num_pages fuel s.allocator_rng) undefined) _
                  (rw full at h1) in
              let low =
                draw-lt (is_reserved g s) s.num_pages fuel s.allocator_rng some_pages (some_of e) in
              let last : record s { allocator_rng = x.0 } ≡ s' = ground arith in
              let page : x.1 ≡ p = ground arith in
              record {
                below = ground (arith, low);
                same_maps = rw (← last) refl;
                same_bits = rw (← last) refl;
                same_pages = rw (← last) refl;
              }
          | inr left ↦
              let (x, e, h2) =
                >>=-ok (or_fail (draw g (is_taken g s) s.num_pages fuel s.allocator_rng) undefined)
                  _ (rw left at h1) in
              let low =
                draw-lt (is_taken g s) s.num_pages fuel s.allocator_rng some_pages (some_of e) in
              let last : record s {
                allocator_rng = x.0;
                num_free_physical_pages = s.num_free_physical_pages - 1;
              }
                  ≡ s' =
                ground arith in
              let page : x.1 ≡ p = ground arith in
              record {
                below = ground (arith, low);
                same_maps = rw (← last) refl;
                same_bits = rw (← last) refl;
                same_pages = rw (← last) refl;
              }
        ]
  ]
