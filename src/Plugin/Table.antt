-- ===== src/Plugin/Table.antt =====
-- The tables of counters of the plugins, `std::unordered_map<int, int>`: an association list with
-- distinct keys.
use aim_simulator.Base.{
  ℕ, suc, ◌+◌, ◌≡◌, ◌≢◌, refl, ap, ◌∙◌, true, false, List, [], ◌∷◌, ℤ, eqb_ℤ, eqb_ℤ_iff, Option,
  some, none, ◌==◌, if◌then◌else◌, length, Bool-cases, inl, inr, arith,
}

abbrev pub Table : Type 0
Table = List (ℤ × ℕ)

-- `t.find(k)`.
abbrev pub find : Table → ℤ → Option ℕ
find [] k = none
find (e ∷ t) k = if eqb_ℤ e.0 k then some e.1 else find t k

-- `t[k] = v`.
abbrev pub assign : Table → ℤ → ℕ → Table
assign [] k v = (k, v) ∷ []
assign (e ∷ t) k v = if eqb_ℤ e.0 k then (k, v) ∷ t else e ∷ assign t k v

-- `t.erase(k)`.
abbrev pub erase : Table → ℤ → Table
erase [] k = []
erase (e ∷ t) k = if eqb_ℤ e.0 k then t else e ∷ erase t k

-- The first key whose count is `v`, in the order of the list.
abbrev pub first_with : ℕ → Table → Option ℤ
first_with v [] = none
first_with v (e ∷ t) = if e.1 == v then some e.0 else first_with v t

abbrev pub total : Table → ℕ
total [] = 0
total (e ∷ t) = e.1 + total t

-- No key is in a table twice.
abbrev pub IsDistinct : Table → Type 0
IsDistinct [] = Unit
IsDistinct (e ∷ t) = (find t e.0 ≡ none) × IsDistinct t

-- An order of iteration visits each entry of a table once.
abbrev pub IsOrder : (Table → Table) → Type 0
IsOrder order =
    (t : Table) → IsDistinct t → IsDistinct (order t) × ((q : ℤ) → find (order t) q ≡ find t q)

pub eq_of_test : (a b : ℤ) → eqb_ℤ a b ≡ true → a ≡ b
eq_of_test a b h = (eqb_ℤ_iff a b).0 h

pub test_self : (a : ℤ) → eqb_ℤ a a ≡ true
test_self a = (eqb_ℤ_iff a a).1 refl

-- A key that fails the test against an equal one.
test_apart : (a k q : ℤ) → eqb_ℤ k q ≡ false → eqb_ℤ a k ≡ true → eqb_ℤ a q ≡ false
test_apart a k q h e = rw (eq_of_test a k e) h

pub find-assign_self : (t : Table) (k : ℤ) (v : ℕ) → find (assign t k v) k ≡ some v
find-assign_self [] k v = rw (test_self k) refl
find-assign_self (e ∷ t) k v = elim (Bool-cases (eqb_ℤ e.0 k)) [
  | inl same ↦ rw (same, test_self k) refl
  | inr other ↦ rw (other, other) (find-assign_self t k v)
]

pub find-assign_other :
    (t : Table) (k q : ℤ) (v : ℕ) → eqb_ℤ k q ≡ false → find (assign t k v) q ≡ find t q
find-assign_other [] k q v h = rw h refl
find-assign_other (e ∷ t) k q v h = elim (Bool-cases (eqb_ℤ e.0 k)) [
  | inl same ↦ rw (same, h, test_apart e.0 k q h same) refl
  | inr other ↦
      rw other
        (ap (λ (o : Option ℕ). if eqb_ℤ e.0 q then some e.1 else o) (find-assign_other t k q v h))
]

pub find-erase_other : (t : Table) (k q : ℤ) → eqb_ℤ k q ≡ false → find (erase t k) q ≡ find t q
find-erase_other [] k q h = refl
find-erase_other (e ∷ t) k q h = elim (Bool-cases (eqb_ℤ e.0 k)) [
  | inl same ↦ rw (same, test_apart e.0 k q h same) refl
  | inr other ↦
      rw other
        (ap (λ (o : Option ℕ). if eqb_ℤ e.0 q then some e.1 else o) (find-erase_other t k q h))
]

pub find-erase_self : (t : Table) (k : ℤ) → IsDistinct t → find (erase t k) k ≡ none
find-erase_self [] k d = refl
find-erase_self (e ∷ t) k d = elim (Bool-cases (eqb_ℤ e.0 k)) [
  | inl same ↦ rw same (rw (← eq_of_test e.0 k same) (d.0))
  | inr other ↦ rw (other, other) (find-erase_self t k d.1)
]

pub find-erase-none : (t : Table) (k q : ℤ) → find t q ≡ none → find (erase t k) q ≡ none
find-erase-none [] k q h = refl
find-erase-none (e ∷ t) k q h = elim (Bool-cases (eqb_ℤ e.0 q)) [
  | inl here ↦ absurd (let h1 = rw here at h in ground arith)
  | inr away ↦ elim (Bool-cases (eqb_ℤ e.0 k)) [
    | inl same ↦ rw same (rw away at h)
    | inr other ↦ rw (other, away) (find-erase-none t k q (rw away at h))
  ]
]

pub IsDistinct-erase : (t : Table) (k : ℤ) → IsDistinct t → IsDistinct (erase t k)
IsDistinct-erase [] k d = tt
IsDistinct-erase (e ∷ t) k d = elim (Bool-cases (eqb_ℤ e.0 k)) [
  | inl same ↦ rw same (d.1)
  | inr other ↦ rw other (find-erase-none t k e.0 d.0, IsDistinct-erase t k d.1)
]

test_sym : (a b : ℤ) → eqb_ℤ a b ≡ false → eqb_ℤ b a ≡ false
test_sym a b h = elim (Bool-cases (eqb_ℤ b a)) [
  | inr other ↦ other
  | inl same ↦
      absurd (let e = eq_of_test b a same in let h1 = rw (e, test_self a) at h in ground arith)
]

pub IsDistinct-assign : (t : Table) (k : ℤ) (v : ℕ) → IsDistinct t → IsDistinct (assign t k v)
IsDistinct-assign [] k v d = (refl, tt)
IsDistinct-assign (e ∷ t) k v d = elim (Bool-cases (eqb_ℤ e.0 k)) [
  | inl same ↦ rw same (rw (← eq_of_test e.0 k same) (d.0, d.1))
  | inr other ↦
      rw other
        (find-assign_other t k e.0 v (test_sym e.0 k other) ∙ d.0, IsDistinct-assign t k v d.1)
]

-- What writing and erasing do to the number of entries and to the sum of the counts.
pub total-assign-some :
    (t : Table) (k : ℤ) (c v : ℕ)
    → find t k ≡ some c
    → (total (assign t k v) + c ≡ total t + v) × (length (assign t k v) ≡ length t)
total-assign-some [] k c v h = absurd (ground arith)
total-assign-some (e ∷ t) k c v h = elim (Bool-cases (eqb_ℤ e.0 k)) [
  | inl same ↦ let h1 = rw same at h in rw same (ground arith, refl)
  | inr other ↦
      let r = total-assign-some t k c v (rw other at h) in
      rw other (ground (arith, r.0), ap suc r.1)
]

pub total-assign-none :
    (t : Table) (k : ℤ) (v : ℕ)
    → find t k ≡ none
    → (total (assign t k v) ≡ total t + v) × (length (assign t k v) ≡ suc (length t))
total-assign-none [] k v h = (ground arith, refl)
total-assign-none (e ∷ t) k v h = elim (Bool-cases (eqb_ℤ e.0 k)) [
  | inl same ↦ absurd (let h1 = rw same at h in ground arith)
  | inr other ↦
      let r = total-assign-none t k v (rw other at h) in rw other (ground (arith, r.0), ap suc r.1)
]

pub total-erase :
    (t : Table) (k : ℤ) (c : ℕ)
    → find t k ≡ some c
    → (total (erase t k) + c ≡ total t) × (suc (length (erase t k)) ≡ length t)
total-erase [] k c h = absurd (ground arith)
total-erase (e ∷ t) k c h = elim (Bool-cases (eqb_ℤ e.0 k)) [
  | inl same ↦ let h1 = rw same at h in rw same (ground arith, refl)
  | inr other ↦
      let r = total-erase t k c (rw other at h) in rw other (ground (arith, r.0), ap suc r.1)
]

-- What `first_with` finds, and what it means that it finds nothing.
pub first_with-some :
    (v : ℕ) (t : Table) (q : ℤ) → IsDistinct t → first_with v t ≡ some q → find t q ≡ some v
first_with-some v [] q d h = absurd (ground arith)
first_with-some v (e ∷ t) q d h = elim (Bool-cases (e.1 == v)) [
  | inl here ↦
      let h1 = rw here at h in
      let key : e.0 ≡ q = ground arith in rw (← key) (rw (test_self e.0) (ground arith))
  | inr away ↦
      let found = first_with-some v t q d.1 (rw away at h) in
      elim (Bool-cases (eqb_ℤ e.0 q)) [
        | inr other ↦ rw other found
        | inl same ↦ absurd (
            let none_there = d.0 in
            let key = eq_of_test e.0 q same in let h2 = rw key at none_there in ground arith)
      ]
]

pub first_with-none :
    (v : ℕ) (t : Table) (q : ℤ) (c : ℕ) → first_with v t ≡ none → find t q ≡ some c → c ≢ v
first_with-none v [] q c h f = absurd (ground arith)
first_with-none v (e ∷ t) q c h f = elim (Bool-cases (e.1 == v)) [
  | inl here ↦ absurd (let h1 = rw here at h in ground arith)
  | inr away ↦ elim (Bool-cases (eqb_ℤ e.0 q)) [
    | inl same ↦ let f1 = rw same at f in (λ eq. ground arith)
    | inr other ↦ first_with-none v t q c (rw away at h) (rw other at f)
  ]
]
