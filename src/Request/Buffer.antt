-- ===== src/Request/Buffer.antt =====
-- src/base/request.h, `ReqBuffer`: a list of requests with a limit. An iterator is a position.
use mathlib.Core.List.{append-nil, append_assoc}
use aim_simulator.Base.{
  ℕ, zero, suc, sym, ap, ◌∙◌, refl, ◌-◌, ◌<◌, take, Bool-cases, inl, inr, ◌+◌, ◌≤◌, ◌≡◌, Bool, true,
  false, List, [], ◌∷◌, ◌++◌, length, erase_at, leb, if◌then◌else◌, arith, length-append,
  length-erase_at-le,
}

pub record ReqBuffer (R : Type 0) : Type 0 where
  pub buffer : List R
  pub max_size : ℕ

append_nothing {ℓ} : {A : Type ℓ} (xs : List A) (n : ℕ) → xs ++ take n [] ≡ xs
append_nothing xs zero = append-nil xs
append_nothing xs (suc n) = append-nil xs

module _ {R : Type 0} where
  abbrev pub size : ReqBuffer R → ℕ
  size b = length b.buffer

  -- `buffer.size() <= max_size` is the source's test: one request more than `max_size` fits.
  unfoldable pub enqueue : ReqBuffer R → R → ReqBuffer R × Bool
  enqueue b r =
      if leb (size b) b.max_size
      then (record b { buffer = b.buffer ++ r ∷ [] }, true)
      else (b, false)

  unfoldable pub remove : ReqBuffer R → ℕ → ReqBuffer R
  remove b i = record b { buffer = erase_at b.buffer i }

  -- The largest number of requests that `enqueue` can bring about.
  abbrev pub IsBounded : ReqBuffer R → Type 0
  IsBounded b = size b ≤ b.max_size + 1

  pub enqueue-IsBounded : (b : ReqBuffer R) (r : R) → IsBounded b → IsBounded (enqueue b r).0
  unfolding enqueue
  enqueue-IsBounded b r h = ground (arith, length-append b.buffer (r ∷ []))

  pub remove-IsBounded : (b : ReqBuffer R) (i : ℕ) → IsBounded b → IsBounded (remove b i)
  unfolding remove
  remove-IsBounded b i h = omega (arith, length-erase_at-le b.buffer i)

  -- Admission, exactly.
  pub enqueue_admits :
      (b : ReqBuffer R) (r : R)
      → ((enqueue b r).1 ≡ true → size b ≤ b.max_size)
        × (size b ≤ b.max_size → (enqueue b r).1 ≡ true)
  unfolding enqueue
  enqueue_admits b r = ground arith

  -- The buffer after requests that arrive one after the other.
  abbrev pub enqueue_all : ReqBuffer R → List R → ReqBuffer R
  enqueue_all b [] = b
  enqueue_all b (r ∷ rs) = enqueue_all (enqueue b r).0 rs

  -- A buffer that gets requests one after the other holds what it held, in front, and of the requests
  -- the first ones, in their order, as many as it takes to hold one more than `max_size`; the others
  -- are not stored, and the limit stays.
  pub enqueue_all-take :
      (b : ReqBuffer R) (rs : List R)
      → ((enqueue_all b rs).buffer ≡ b.buffer ++ take (b.max_size + 1 - size b) rs)
        × ((enqueue_all b rs).max_size ≡ b.max_size)
  unfolding enqueue
  enqueue_all-take b [] = (sym (append_nothing b.buffer (b.max_size + 1 - size b)), refl)
  enqueue_all-take b (r ∷ rs) = elim (Bool-cases (leb (size b) b.max_size)) [
    | inl fits ↦
        let b' : ReqBuffer R = record b { buffer = b.buffer ++ r ∷ [] } in
        let rest = enqueue_all-take b' rs in
        let grown = length-append b.buffer (r ∷ []) in
        let low : size b ≤ b.max_size = ground arith in
        let room : b.max_size + 1 - size b ≡ suc (b.max_size + 1 - size b') =
          omega (arith, grown, low) in
        rw (fits, enqueue_all)
          (
            rest.0
                ∙ append_assoc b.buffer (r ∷ []) (take (b.max_size + 1 - size b') rs)
                ∙ ap (λ k. b.buffer ++ take k (r ∷ rs)) (sym room),
            rest.1,
          )
    | inr full ↦
        let high : b.max_size < size b = ground arith in
        let none_left : b.max_size + 1 - size b ≡ 0 = omega (arith, high) in
        let rest = enqueue_all-take b rs in
        rw (full, enqueue_all)
          (
            rest.0
                ∙ ap (λ k. b.buffer ++ take k rs) none_left
                ∙ ap (λ k. b.buffer ++ take k (r ∷ rs)) (sym none_left),
            rest.1,
          )
  ]
