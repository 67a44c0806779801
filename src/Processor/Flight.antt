-- ===== src/Processor/Flight.antt =====
-- Lines in flight in a set of the cache (src/frontend/impl/processor/simpleO3/llc.cpp).
use aim_simulator.Base.{
  ℕ, ◌≡◌, ◌≢◌, refl, ap, ◌∙◌, Bool, true, false, List, [], ◌∷◌, ◌++◌, ◌==◌, ◌||◌, ◌&&◌, not, some,
  Bool-cases, ==_iff, inl, inr, arith,
}
use aim_simulator.Processor.Cache.{CacheLine, find_line, erase_line, has_node, with_node}

-- The node is in the set, and its line has not arrived.
abbrev pub in_flight : ℕ → List CacheLine → Bool
in_flight n [] = false
in_flight n (l ∷ ls) = (l.node == n && not l.ready) || in_flight n ls

pub in_flight-has_node :
    (n : ℕ) (ls : List CacheLine) → in_flight n ls ≡ true → has_node n ls ≡ true
in_flight-has_node n [] h = absurd (ground arith)
in_flight-has_node n (l ∷ ls) h = elim (Bool-cases (l.node == n)) [
  | inl here ↦ rw here refl
  | inr away ↦ rw away (in_flight-has_node n ls (rw away at h))
]

pub in_flight-append :
    (n : ℕ) (ls ms : List CacheLine) → in_flight n ls ≡ true → in_flight n (ls ++ ms) ≡ true
in_flight-append n [] ms h = absurd (ground arith)
in_flight-append n (l ∷ ls) ms h = elim (Bool-cases (l.node == n && not l.ready)) [
  | inl here ↦ rw here refl
  | inr away ↦ rw away (in_flight-append n ls ms (rw away at h))
]

pub in_flight-last :
    (n : ℕ) (ls : List CacheLine) (l : CacheLine)
    → l.node ≡ n
    → l.ready ≡ false
    → in_flight n (ls ++ l ∷ []) ≡ true
in_flight-last n [] l node ready = rw ((==_iff l.node n).1 node, ready) refl
in_flight-last n (k ∷ ls) l node ready = elim (Bool-cases (k.node == n && not k.ready)) [
  | inl here ↦ rw here refl
  | inr away ↦ rw away (in_flight-last n ls l node ready)
]

arrived :
    (n : ℕ) (k : CacheLine) (ls : List CacheLine)
    → k.ready ≡ true
    → in_flight n (k ∷ ls) ≡ true
    → in_flight n ls ≡ true
arrived n k ls ready h = elim (Bool-cases (k.node == n)) [
  | inl here ↦ rw (here, ready) at h
  | inr away ↦ rw away at h
]

-- Erasing a line that has arrived.
pub in_flight-erase :
    (n : ℕ) (p : CacheLine → Bool) (ls : List CacheLine) (l : CacheLine)
    → find_line p ls ≡ some l
    → l.ready ≡ true
    → in_flight n ls ≡ true
    → in_flight n (erase_line p ls) ≡ true
in_flight-erase n p [] l found ready h = absurd (ground arith)
in_flight-erase n p (k ∷ ls) l found ready h = elim (Bool-cases (p k)) [
  | inl here ↦
      let f = rw here at found in
      let same : k.ready ≡ true =
        (let e : k ≡ l = ground arith in ap (λ (x : CacheLine). x.ready) e ∙ ready) in
      rw here (arrived n k ls same h)
  | inr away ↦ elim (Bool-cases (k.node == n && not k.ready)) [
    | inl flies ↦ rw (away, flies) refl
    | inr other ↦
        rw (away, other) (in_flight-erase n p ls l (rw away at found) ready (rw other at h))
  ]
]

-- A write to another node, and one that leaves a line in flight.
pub in_flight-with_other :
    (n k : ℕ) (f : CacheLine → CacheLine) (ls : List CacheLine)
    → ((l : CacheLine) → (f l).node ≡ l.node)
    → n ≢ k
    → in_flight n ls ≡ true
    → in_flight n (with_node k f ls) ≡ true
in_flight-with_other n k f [] keeps apart h = absurd (ground arith)
in_flight-with_other n k f (l ∷ ls) keeps apart h = elim (Bool-cases (l.node == k)) [
  | inl here ↦
      let other : (l.node == n) ≡ false = (let e = (==_iff l.node k).0 here in ground arith) in
      rw (here, keeps l, other) (rw other at h)
  | inr away ↦ elim (Bool-cases (l.node == n && not l.ready)) [
    | inl flies ↦ rw (away, flies) refl
    | inr rests ↦ rw (away, rests) (in_flight-with_other n k f ls keeps apart (rw rests at h))
  ]
]

pub in_flight-with_same :
    (n k : ℕ) (f : CacheLine → CacheLine) (ls : List CacheLine)
    → ((l : CacheLine) → ((f l).node ≡ l.node) × ((f l).ready ≡ l.ready))
    → in_flight n ls ≡ true
    → in_flight n (with_node k f ls) ≡ true
in_flight-with_same n k f [] keeps h = absurd (ground arith)
in_flight-with_same n k f (l ∷ ls) keeps h = elim (Bool-cases (l.node == k)) [
  | inl here ↦ rw (here, (keeps l).0, (keeps l).1) h
  | inr away ↦ elim (Bool-cases (l.node == n && not l.ready)) [
    | inl flies ↦ rw (away, flies) refl
    | inr rests ↦ rw (away, rests) (in_flight-with_same n k f ls keeps (rw rests at h))
  ]
]

pub find_line-append :
    (p : CacheLine → Bool) (ls ms : List CacheLine) (l : CacheLine)
    → find_line p ls ≡ some l
    → find_line p (ls ++ ms) ≡ some l
find_line-append p [] ms l h = absurd (ground arith)
find_line-append p (k ∷ ls) ms l h = elim (Bool-cases (p k)) [
  | inl here ↦ rw here (rw here at h)
  | inr away ↦ rw away (find_line-append p ls ms l (rw away at h))
]
