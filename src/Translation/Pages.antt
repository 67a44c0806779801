-- ===== src/Translation/Pages.antt =====
-- Virtual pages keep their physical pages (src/translation/impl/random_translation.cpp, `translate`).
use Prim.Native.String.{String}
use text.Mathlib.Text.{◌==◌ as str_eq}
use aim_simulator.Base.{ℕ, ◌≡◌, refl, ◌∙◌, Bool, true, ℤ, some, ◌==◌, ok, get_elem?}
use aim_simulator.Request.{Request}
use aim_simulator.Processor.Cache.{shift_right}
use aim_simulator.Translation.Random.{
  Generator, PageMap, RandomTranslation, core_of, within_int, physical, translate, reserve,
}

module _ (g : Generator) where
  -- Whatever page is mapped in `m` is mapped in `m'`, to the same physical page.
  abbrev pub Extends : PageMap → PageMap → Type 0
  Extends m m' = (v : ℤ) (p : ℕ) → m v ≡ some p → m' v ≡ some p

  -- `s'` comes after `s`: the maps of the cores have grown at most, and the pages are of one size.
  pub record IsLater (s s' : RandomTranslation g) : Type 0 where
    pub grown :
        (i : ℕ) (m : PageMap)
        → get_elem? s.translation i ≡ some m
        → (m' : PageMap) × (get_elem? s'.translation i ≡ some m') × Extends m m'
    pub same_bits : s'.offsetbits ≡ s.offsetbits

  pub IsLater-refl : (s : RandomTranslation g) → IsLater s s
  IsLater-refl s = record { grown = λ i m h. (m, h, λ v p e. e); same_bits = refl }

  pub IsLater-trans : (s t u : RandomTranslation g) → IsLater s t → IsLater t u → IsLater s u
  IsLater-trans s t u a b = record {
    grown = λ i m h.
        let (m1, h1, e1) = a.grown i m h in
        let (m2, h2, e2) = b.grown i m1 h1 in (m2, h2, λ v p e. e2 v p (e1 v p e));
    same_bits = b.same_bits ∙ a.same_bits;
  }

  -- What looking up a page has done: the page is in the map of the core, where it is found again,
  -- and whatever was mapped still is.
  record IsFound (s s' : RandomTranslation g) (i : ℕ) (v : ℤ) (p : ℕ) : Type 0 where
    map : PageMap
    here : get_elem? s'.translation i ≡ some map
    mapped : map v ≡ some p
    later : IsLater s s'

  -- The parts of a translation that succeeds.
  record IsTranslated (s s' : RandomTranslation g) (req req' : Request) (b : Bool) : Type 0 where
    core : ℕ
    page : ℕ
    source : core_of g req.source_id ≡ ok core
    found : IsFound s s' core (shift_right req.addr s.offsetbits) page
    fits_int : within_int g s.offsetbits ≡ ok tt
    output : record req { addr = physical g s.offsetbits page req.addr } ≡ req'
    sent : true ≡ b

  -- Any calls of `translate` and `reserve` that succeed, in any order and for any cores.
  pub data Calls : RandomTranslation g → RandomTranslation g → Type 0 where
    done : {s : RandomTranslation g} → Calls s s
    translating :
        {s s' u : RandomTranslation g} (fuel : ℕ) (req req' : Request) (b : Bool)
        → translate g fuel s req ≡ ok (s', req', b)
        → Calls s' u
        → Calls s u
    reserving :
        {s s' u : RandomTranslation g} (type : String) (addr : ℤ) (b : Bool)
        → reserve g s type addr ≡ ok (s', b)
        → Calls s' u
        → Calls s u
