-- ===== src/Translation/Inside.antt =====
-- Translated addresses lie in the memory (src/translation/impl/random_translation.cpp, `translate`).
use mathlib.Core.Path.{subst}
use aim_simulator.Base.{
  true, false, ℕ, zero, suc, ◌+◌, ◌==◌, ◌*◌, ◌%◌, ◌^◌, ◌<◌, ◌≡◌, refl, sym, ap, ◌∙◌, Bool, List, [],
  ◌∷◌, ℤ, pos, eqb_ℤ, to_uint, Option, some, none, ok, undefined, or_fail, >>=-ok, get_elem?, set,
  All, Bool-cases, inl, inr, arith,
}
use aim_simulator.Request.{Request}
use aim_simulator.Processor.Cache.{shift_right}
use aim_simulator.Translation.Random.{
  Generator, PageMap, assign, RandomTranslation, new_page, page_of, core_of, within_int, physical,
  translate,
}
use aim_simulator.Translation.Landing.{Lands, translate-total}
use aim_simulator.Translation.Drawn.{some_of, new_page-IsPage}

-- Every page of the maps is one of the first `n`.
abbrev pub IsBelow : ℕ → PageMap → Type 0
IsBelow n m = (v : ℤ) (p : ℕ) → m v ≡ some p → p < n

assign-IsBelow :
    (n : ℕ) (m : PageMap) (v : ℤ) (p : ℕ) → p < n → IsBelow n m → IsBelow n (assign m v p)
assign-IsBelow n m v p low below w q h = elim (Bool-cases (eqb_ℤ w v)) [
  | inl same ↦ let h1 = rw same at h in let e : p ≡ q = ground arith in ground (arith, low)
  | inr other ↦ below w q (rw other at h)
]

All-get_elem? :
    (P : PageMap → Type 0) (ms : List PageMap) (i : ℕ) (m : PageMap)
    → All P ms
    → get_elem? ms i ≡ some m
    → P m
All-get_elem? P [] i m a h = absurd (ground arith)
All-get_elem? P (k ∷ ms) zero m a h = let e : k ≡ m = ground arith in subst P e a.0
All-get_elem? P (k ∷ ms) (suc i) m a h = All-get_elem? P ms i m a.1 h

All-set :
    (P : PageMap → Type 0) (ms : List PageMap) (i : ℕ) (m : PageMap)
    → All P ms
    → P m
    → All P (set ms i m)
All-set P [] i m a h = tt
All-set P (k ∷ ms) zero m a h = (h, a.1)
All-set P (k ∷ ms) (suc i) m a h = (a.0, All-set P ms i m a.1 h)

module _ (g : Generator) where
  -- All pages that are mapped are pages of the memory.
  abbrev pub IsInside : RandomTranslation g → Type 0
  IsInside s = All (IsBelow s.num_pages) s.translation

  -- A page of the memory, in a state that is inside with as many pages.
  record Paged (s s' : RandomTranslation g) (p : ℕ) : Type 0 where
    below : p < s.num_pages
    same_pages : s'.num_pages ≡ s.num_pages
    inside : IsInside s'

  page_of-Paged :
      (fuel : ℕ) (s s' : RandomTranslation g) (i : ℕ) (m : PageMap) (v : ℤ) (p : ℕ) (o : Option ℕ)
      → get_elem? s.translation i ≡ some m
      → m v ≡ o
      → IsInside s
      → page_of g fuel s i m v o ≡ ok (s', p)
      → Paged s s' p
  unfolding page_of
  page_of-Paged fuel s s' i m v p (some q) here at_v all h =
      let last : s ≡ s' = ground arith in
      let page : q ≡ p = ground arith in
      record {
        below =
            All-get_elem? (IsBelow s.num_pages) s.translation i m all here v p
              (at_v ∙ ap some page);
        same_pages = ap (λ (x : RandomTranslation g). x.num_pages) (sym last);
        inside = subst IsInside last all;
      }
  page_of-Paged fuel s s' i m v p none here at_v all h =
      let (x, e, h1) = >>=-ok (new_page g fuel s) _ h in
      let k = new_page-IsPage g fuel s x.0 x.1 e in
      let last : record x.0 { translation = set x.0.translation i (assign m v x.1) } ≡ s' =
        ground arith in
      let page : x.1 ≡ p = ground arith in
      let old = All-get_elem? (IsBelow s.num_pages) s.translation i m all here in
      let maps =
        All-set (IsBelow s.num_pages) s.translation i (assign m v x.1) all
          (assign-IsBelow s.num_pages m v x.1 k.below old) in
      let moved : IsInside (record x.0 { translation = set x.0.translation i (assign m v x.1) }) =
        rw (k.same_pages, k.same_maps) maps in
      record {
        below = subst (λ n. n < s.num_pages) page k.below;
        same_pages = ap (λ (y : RandomTranslation g). y.num_pages) (sym last) ∙ k.same_pages;
        inside = subst IsInside last moved;
      }

  translated-IsInside :
      (fuel : ℕ) (s s' : RandomTranslation g) (req req' : Request) (b : Bool)
      → IsInside s
      → translate g fuel s req ≡ ok (s', req', b)
      → IsInside s'
        × (s'.num_pages ≡ s.num_pages)
        × ((p : ℕ) × (p < s.num_pages)
            × (req'.addr ≡ pos (p * 2 ^ s.offsetbits + to_uint 64 req.addr % 2 ^ s.offsetbits)))
  unfolding translate
  translated-IsInside fuel s s' req req' b all h =
      let (i, core, h1) = >>=-ok (core_of g req.source_id) _ h in
      let (m, here, h2) = >>=-ok (or_fail (get_elem? s.translation i) undefined) _ h1 in
      let v = shift_right req.addr s.offsetbits in
      let (x, e, h3) = >>=-ok (page_of g fuel s i m v (m v)) _ h2 in
      let k = page_of-Paged fuel s x.0 i m v x.1 (m v) (some_of here) refl all e in
      let (_, narrow, h4) = >>=-ok (within_int g s.offsetbits) _ h3 in
      let last : x.0 ≡ s' = ground arith in
      let out : record req { addr = physical g s.offsetbits x.1 req.addr } ≡ req' = ground arith in
      (
        subst IsInside last k.inside,
        ap (λ (y : RandomTranslation g). y.num_pages) (sym last) ∙ k.same_pages,
        (x.1, k.below, ap (λ (r : Request). r.addr) (sym out)),
      )

  -- When a page has less than 2 ^ 31 bytes, the mapped pages are pages of the memory, and the generator gives a page that is neither
  -- reserved nor taken within `fuel` draws, a request of a core is translated: its address is in a page
  -- of the memory, at the offset that it had, and the mapped pages stay pages of the memory.
  pub translate-IsInside :
      (fuel : ℕ) (s : RandomTranslation g) (req : Request) (i : ℕ) (m : PageMap)
      → core_of g req.source_id ≡ ok i
      → get_elem? s.translation i ≡ some m
      → s.offsetbits < 31
      → (s.num_pages == 0) ≡ false
      → Lands g fuel s
      → IsInside s
      → (s' : RandomTranslation g) × (req' : Request) × (translate g fuel s req
          ≡ ok (s', req', true))
        × IsInside s'
        × ((p : ℕ) × (p < s.num_pages)
            × (req'.addr ≡ pos (p * 2 ^ s.offsetbits + to_uint 64 req.addr % 2 ^ s.offsetbits)))
  translate-IsInside fuel s req i m core here bits pages lands all =
      let (s', req', e) = translate-total g fuel s req i m core here bits pages lands in
      let (inside, same, page) = translated-IsInside fuel s s' req req' true all e in
      (s', req', e, inside, page)
