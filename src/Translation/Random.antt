-- ===== src/Translation/Random.antt =====
-- src/translation/impl/random_translation.cpp and no_translation.cpp.
use Prim.Native.String.{String}
use text.Mathlib.Text.{◌==◌ as str_eq}
use aim_simulator.Base.{
  ℕ, zero, suc, ◌+◌, ◌-◌, ◌*◌, ◌%◌, ◌^◌, Bool, true, false, List, ℤ, pos, negsuc, eqb_ℤ, to_uint,
  Option, some, none, ◌==◌, ◌||◌, not, Result, ok, err, configuration_error, undefined, or_fail,
  ◌>>=◌, if◌then◌else◌, get_elem?, get_or, set, replicate, ltb,
}
use aim_simulator.Request.{Request}
use aim_simulator.Processor.Cache.{shift_right}

-- `NoTranslation::translate`.
abbrev pub no_translation : Request → Request × Bool
no_translation req = (req, true)

-- A generator of numbers, of which the program takes the next one; `std::mt19937_64` is one.
pub record Generator : Type 1 where
  pub State : Type 0
  pub next : State → State × ℕ

-- A map from virtual to physical pages.
abbrev pub PageMap : Type 0
PageMap = ℤ → Option ℕ

abbrev pub assign : PageMap → ℤ → ℕ → PageMap
assign m vpn ppn v = if eqb_ℤ v vpn then some ppn else m v

module _ (g : Generator) where
  open g use {State}

  pub record RandomTranslation : Type 0 where
    pub allocator_rng : State
    pub offsetbits : ℕ
    pub num_pages : ℕ
    pub free_physical_pages : List Bool
    pub num_free_physical_pages : ℕ
    pub translation : List PageMap
    pub reserved_pages : ℤ → Bool

  -- `init`, for a seeded generator, a page of 2 ^ `offsetbits` bytes, and this many pages and cores.
  abbrev pub init : State → (offsetbits num_pages num_cores : ℕ) → RandomTranslation
  init rng offsetbits num_pages num_cores = record {
    allocator_rng = rng;
    offsetbits = offsetbits;
    num_pages = num_pages;
    free_physical_pages = replicate num_pages true;
    num_free_physical_pages = num_pages;
    translation = replicate num_cores (λ vpn. none);
    reserved_pages = λ ppn. false;
  }

  -- The loops that draw a page: `fuel` bounds the draws, and `is_bad` is the loop's condition.
  unfoldable pub draw : (ℕ → Bool) → ℕ → ℕ → State → Option (State × ℕ)
  draw is_bad num_pages zero rng = none
  draw is_bad num_pages (suc fuel) rng =
      let x = g.next rng in
      let again = draw is_bad num_pages fuel x.0 in
      if is_bad (x.1 % num_pages) then again else some (x.0, x.1 % num_pages)

  abbrev pub is_reserved : RandomTranslation → ℕ → Bool
  is_reserved s ppn = s.reserved_pages (pos ppn)

  abbrev pub is_taken : RandomTranslation → ℕ → Bool
  is_taken s ppn = is_reserved s ppn || not (get_or s.free_physical_pages ppn false)

  -- A page for a new entry: any page that is not reserved when none is left, or else one that is free.
  -- A loop that has not ended is `undefined`.
  unfoldable pub new_page : ℕ → RandomTranslation → Result (RandomTranslation × ℕ)
  new_page fuel s =
      if s.num_pages == 0
      then err undefined
      else if s.num_free_physical_pages == 0
      then (do
        (rng, ppn) ← or_fail (draw (is_reserved s) s.num_pages fuel s.allocator_rng) undefined
        ok (record s { allocator_rng = rng }, ppn))
      else (do
        (rng, ppn) ← or_fail (draw (is_taken s) s.num_pages fuel s.allocator_rng) undefined
        ok (
          record s { allocator_rng = rng; num_free_physical_pages = s.num_free_physical_pages - 1 },
          ppn,
        ))

  -- The physical page of a virtual page of core `i`, with its map.
  unfoldable pub page_of :
      ℕ → RandomTranslation → ℕ → PageMap → ℤ → Option ℕ → Result (RandomTranslation × ℕ)
  page_of fuel s i m vpn (some ppn) = ok (s, ppn)
  page_of fuel s i m vpn none = do
    (s', ppn) ← new_page fuel s
    ok (record s' { translation = set s'.translation i (assign m vpn ppn) }, ppn)

  -- `m_translation[req.source_id]`.
  abbrev pub core_of : ℤ → Result ℕ
  core_of (pos i) = ok i
  core_of (negsuc i) = err undefined

  -- `(ppn << m_offsetbits) | (addr & ((1 << m_offsetbits) - 1))`.
  abbrev pub physical : ℕ → ℕ → ℤ → ℤ
  physical offsetbits ppn a = pos (ppn * 2 ^ offsetbits + to_uint 64 a % 2 ^ offsetbits)

  -- `1 << m_offsetbits` shifts an `int`: from 31 bits on it is `undefined`.
  abbrev pub within_int : ℕ → Result {0} Unit
  within_int offsetbits = if ltb offsetbits 31 then ok tt else err undefined

  unfoldable pub translate :
      ℕ → RandomTranslation → Request → Result (RandomTranslation × Request × Bool)
  translate fuel s req = do
    i ← core_of req.source_id
    m ← or_fail (get_elem? s.translation i) undefined
    let vpn = shift_right req.addr s.offsetbits
    (s', ppn) ← page_of fuel s i m vpn (m vpn)
    _ ← within_int s.offsetbits
    ok (s', record req { addr = physical s.offsetbits ppn req.addr }, true)

  unfoldable pub reserve : RandomTranslation → String → ℤ → Result (RandomTranslation × Bool)
  reserve s type addr =
      if str_eq type "Hydra"
      then ok (
        record s {
          reserved_pages = λ ppn. eqb_ℤ ppn (shift_right addr s.offsetbits) || s.reserved_pages ppn;
        },
        true,
      )
      else err configuration_error
