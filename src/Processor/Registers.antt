-- ===== src/Processor/Registers.antt =====
-- The miss registers of the cache and the lines that they wait for
-- (src/frontend/impl/processor/simpleO3/llc.cpp, `m_mshrs`).
use aim_simulator.Base.{
  ℕ, ◌+◌, ◌≤◌, ◌<◌, ◌≡◌, ◌≢◌, sym, ap, ◌∙◌, true, List, [], ◌∷◌, ◌++◌, ℤ, ◌==◌, some, length, All,
  Bool-cases, ==_iff, inl, inr, arith,
}
use aim_simulator.Processor.Cache.{
  CacheLine, MshrEntry, align, put_set, check_mshr_hit, erase_mshr, with_node,
}
use aim_simulator.Processor.Flight.{in_flight, in_flight-with_other}

abbrev pub Apart : ℕ → List MshrEntry → Type 0
Apart n ms = All (λ k. n ≢ k.node) ms

-- Each register has a line in flight of its own, among the nodes so far.
abbrev pub Flights : List MshrEntry → (ℕ → List CacheLine) → ℕ → Type 0
Flights [] sets next = Unit
Flights (m ∷ ms) sets next =
    (in_flight m.node (sets m.set_index) ≡ true)
    × (m.node < next)
    × Apart m.node ms
    × Flights ms sets next

in_flight-put :
    (n i j : ℕ) (sets : ℕ → List CacheLine) (new : List CacheLine)
    → (in_flight n (sets i) ≡ true → in_flight n new ≡ true)
    → in_flight n (sets j) ≡ true
    → in_flight n (put_set sets i new j) ≡ true
in_flight-put n i j sets new keeps h = elim (Bool-cases (j == i)) [
  | inl here ↦ let e = (==_iff j i).0 here in rw here (keeps (rw e at h))
  | inr away ↦ rw away h
]

-- A set changes, and its lines in flight stay so.
pub Flights-put :
    (ms : List MshrEntry) (sets : ℕ → List CacheLine) (i next next' : ℕ) (new : List CacheLine)
    → ((n : ℕ) → in_flight n (sets i) ≡ true → in_flight n new ≡ true)
    → next ≤ next'
    → Flights ms sets next
    → Flights ms (put_set sets i new) next'
Flights-put [] sets i next next' new keeps more f = tt
Flights-put (m ∷ ms) sets i next next' new keeps more f = (
  in_flight-put m.node i m.set_index sets new (keeps m.node) f.0,
  omega (arith, f.1, more),
  f.2,
  Flights-put ms sets i next next' new keeps more f.3,
)

pub Flights-Apart :
    (ms : List MshrEntry) (sets : ℕ → List CacheLine) (i next k : ℕ) (f : CacheLine → CacheLine)
    → ((l : CacheLine) → (f l).node ≡ l.node)
    → Apart k ms
    → Flights ms sets next
    → Flights ms (put_set sets i (with_node k f (sets i))) next
Flights-Apart [] sets i next k f keeps apart h = tt
Flights-Apart (m ∷ ms) sets i next k f keeps apart h = (
  in_flight-put m.node i m.set_index sets _
      (in_flight-with_other m.node k f (sets i) keeps (λ e. apart.0 (sym e))) h.0,
  h.1,
  h.2,
  Flights-Apart ms sets i next k f keeps apart.1 h.3,
)

Apart-append :
    (n : ℕ) (ms : List MshrEntry) (m : MshrEntry) → n ≢ m.node → Apart n ms → Apart n (ms ++ m ∷ [])
Apart-append n [] m h a = (h, tt)
Apart-append n (k ∷ ms) m h a = (a.0, Apart-append n ms m h a.1)

-- A new register, for the next node.
pub Flights-add :
    (ms : List MshrEntry) (sets : ℕ → List CacheLine) (m : MshrEntry)
    → in_flight m.node (sets m.set_index) ≡ true
    → Flights ms sets m.node
    → Flights (ms ++ m ∷ []) sets (m.node + 1)
Flights-add [] sets m flies f = (flies, omega arith, tt, tt)
Flights-add (k ∷ ms) sets m flies f = (
  f.0,
  omega (arith, f.1),
  Apart-append k.node ms m (let h = f.1 in λ e. omega arith) f.2,
  Flights-add ms sets m flies f.3,
)

-- The register that a look-up finds.
pub found_flight :
    (line : ℕ) (a : ℤ) (ms : List MshrEntry) (sets : ℕ → List CacheLine) (next : ℕ) (m : MshrEntry)
    → check_mshr_hit line a ms ≡ some m
    → Flights ms sets next
    → in_flight m.node (sets m.set_index) ≡ true
found_flight line a [] sets next m h f = absurd (ground arith)
found_flight line a (k ∷ ms) sets next m h f =
    elim (Bool-cases (align line k.addr == align line a)) [
      | inl here ↦
          let h1 = rw here at h in
          let e : k ≡ m = ground arith in
          ap (λ (x : MshrEntry). in_flight x.node (sets x.set_index)) (sym e) ∙ f.0
      | inr away ↦ found_flight line a ms sets next m (rw away at h) f.3
    ]

found-Apart :
    (line : ℕ) (a : ℤ) (ms : List MshrEntry) (n : ℕ) (m : MshrEntry)
    → check_mshr_hit line a ms ≡ some m
    → Apart n ms
    → n ≢ m.node
found-Apart line a [] n m h f = absurd (ground arith)
found-Apart line a (k ∷ ms) n m h f = elim (Bool-cases (align line k.addr == align line a)) [
  | inl here ↦
      let h1 = rw here at h in
      let e : k ≡ m = ground arith in λ same. f.0 (same ∙ ap (λ (x : MshrEntry). x.node) (sym e))
  | inr away ↦ found-Apart line a ms n m (rw away at h) f.1
]

erase_mshr-Apart :
    (line : ℕ) (a : ℤ) (ms : List MshrEntry) (n : ℕ) → Apart n ms → Apart n (erase_mshr line a ms)
erase_mshr-Apart line a [] n f = tt
erase_mshr-Apart line a (k ∷ ms) n f = elim (Bool-cases (align line k.addr == align line a)) [
  | inl here ↦ rw here (f.1)
  | inr away ↦ rw away (f.0, erase_mshr-Apart line a ms n f.1)
]

-- The register that is found is erased, and its line arrives.
pub Flights-erase :
    (line : ℕ) (a : ℤ) (ms : List MshrEntry) (sets : ℕ → List CacheLine) (next : ℕ) (m : MshrEntry)
    (f : CacheLine → CacheLine)
    → ((l : CacheLine) → (f l).node ≡ l.node)
    → check_mshr_hit line a ms ≡ some m
    → Flights ms sets next
    → Flights
        (erase_mshr line a ms)
        (put_set sets m.set_index (with_node m.node f (sets m.set_index)))
        next
Flights-erase line a [] sets next m f keeps h g = tt
Flights-erase line a (k ∷ ms) sets next m f keeps h g =
    elim (Bool-cases (align line k.addr == align line a)) [
      | inl here ↦
          let h1 = rw here at h in
          let e : k ≡ m = ground arith in
          rw (here, ← e) (Flights-Apart ms sets k.set_index next k.node f keeps g.2 g.3)
      | inr away ↦
          let h1 : check_mshr_hit line a ms ≡ some m = rw away at h in
          rw away (
            in_flight-put k.node m.set_index k.set_index sets _
                (in_flight-with_other k.node m.node f (sets m.set_index) keeps
                  (found-Apart line a ms k.node m h1 g.2))
                g.0,
            g.1,
            erase_mshr-Apart line a ms k.node g.2,
            Flights-erase line a ms sets next m f keeps h1 g.3,
          )
    ]

pub length-erase_mshr-le :
    (line : ℕ) (a : ℤ) (ms : List MshrEntry) → length (erase_mshr line a ms) ≤ length ms
length-erase_mshr-le line a [] = omega arith
length-erase_mshr-le line a (m ∷ ms) = ground (arith, length-erase_mshr-le line a ms)
