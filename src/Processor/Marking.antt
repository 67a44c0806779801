-- ===== src/Processor/Marking.antt =====
-- `set_ready` of the instruction window marks the instructions of an address
-- (src/frontend/impl/processor/simpleO3/core.cpp).
use aim_simulator.Base.{
  ℕ, suc, ◌≤◌, ◌<◌, ◌≡◌, ◌≢◌, refl, sym, ap, ◌∙◌, Bool, true, false, List, [], ◌∷◌, map, ℤ, eqb_ℤ,
  ◌==◌, some, ok, if◌then◌else◌, length, get_elem?, set, length-set, get_elem?-set_self,
  get_elem?-set_ne, Bool-cases, inl, inr, arith,
}
use aim_simulator.Processor.Window.{InstWindow, set_ready_loop, set_ready}
use aim_simulator.Processor.Ring.{next, advance, advance-lt}
use aim_simulator.Processor.Queue.{Entry, Slots, Represents, advance_apart}

-- An instruction of the address becomes ready.
abbrev pub mark : ℤ → Entry → Entry
mark addr e = if eqb_ℤ e.1 addr then (true, e.1) else e

-- What the loop leaves of the list of ready bits.
record Marked (w : InstWindow) (i : ℕ) (q : List Entry) (addr : ℤ) (readies : List Bool)
    : Type 0 where
  size : length readies ≡ length w.ready_list
  slots : Slots readies w.addr_list w.depth i (map (mark addr) q)
  elsewhere :
      (j : ℕ)
      → ((k : ℕ) → k < length q → advance w.depth k i ≢ j)
      → get_elem? readies j ≡ get_elem? w.ready_list j

mark_first :
    (w : InstWindow) (i : ℕ) (e : Entry) (addr : ℤ)
    → get_elem? w.ready_list i ≡ some e.0
    → (readies : List Bool) × ((if eqb_ℤ e.1 addr
          then record w { ready_list = set w.ready_list i true }
          else w)
        ≡ record w { ready_list = readies })
      × (length readies ≡ length w.ready_list)
      × (get_elem? readies i ≡ some (mark addr e).0)
      × ((j : ℕ) → i ≢ j → get_elem? readies j ≡ get_elem? w.ready_list j)
mark_first w i e addr h = elim (Bool-cases (eqb_ℤ e.1 addr)) [
  | inl same ↦ (
    set w.ready_list i true,
    rw same refl,
    length-set w.ready_list i true,
    rw same (get_elem?-set_self w.ready_list i true e.0 h),
    λ j ne. get_elem?-set_ne w.ready_list i j true ne,
  )
  | inr other ↦ (w.ready_list, rw other refl, refl, rw other h, λ j ne. refl)
]

Slots-elsewhere :
    (old new : List Bool) (addrs : List ℤ) (d i : ℕ) (q : List Entry)
    → ((k : ℕ) → k < length q → get_elem? new (advance d k i) ≡ get_elem? old (advance d k i))
    → Slots old addrs d i q
    → Slots new addrs d i q
Slots-elsewhere old new addrs d i [] same s = tt
Slots-elsewhere old new addrs d i (e ∷ q) same s = (
  same 0 (omega arith) ∙ s.0,
  s.1,
  Slots-elsewhere old new addrs d (next d i) q (λ k h. same (suc k) (omega arith)) s.2,
)

mark_addr : (e : Entry) (addr : ℤ) → (mark addr e).1 ≡ e.1
mark_addr e addr = elim (Bool-cases (eqb_ℤ e.1 addr)) [
  | inl same ↦ rw same refl
  | inr other ↦ rw other refl
]

length-map : (f : Entry → Entry) (q : List Entry) → length (map f q) ≡ length q
length-map f [] = refl
length-map f (e ∷ q) = ap suc (length-map f q)

set_ready_loop-Marked :
    (w : InstWindow) (i : ℕ) (q : List Entry) (addr : ℤ)
    → i < w.depth
    → length q ≤ w.depth
    → Slots w.ready_list w.addr_list w.depth i q
    → (readies : List Bool) × (set_ready_loop (length q) i addr w
        ≡ ok (record w { ready_list = readies }))
      × Marked w i q addr readies
unfolding set_ready_loop
set_ready_loop-Marked w i [] addr inside room s =
    (w.ready_list, refl, record { size = refl; slots = tt; elsewhere = λ j h. refl })
set_ready_loop-Marked w i (e ∷ q) addr inside room s =
    let d = w.depth in
    let (firsts, step, size, here, there) = mark_first w i e addr s.0 in
    let apart : (k : ℕ) → k < length q → i ≢ advance d k (next d i) =
      (λ k h. advance_apart d i 0 (suc k) inside (omega arith) (omega (arith, room, h))) in
    let later =
      Slots-elsewhere w.ready_list firsts w.addr_list d (next d i) q
        (λ k h. there (advance d k (next d i)) (apart k h)) s.2 in
    let (readies, loop, m) =
      set_ready_loop-Marked (record w { ready_list = firsts }) (next d i) q addr
        (advance-lt d 1 i inside) (omega (arith, room)) later in
    (
      readies,
      rw (s.1, step) loop,
      record {
        size = m.size ∙ size;
        slots = (
          m.elsewhere i (λ k h eq. apart k h (sym eq)) ∙ here,
          s.1 ∙ ap some (sym (mark_addr e addr)),
          m.slots,
        );
        elsewhere =
            λ j h. m.elsewhere j (λ k l. h (suc k) (omega arith)) ∙ there j (h 0 (omega arith));
      },
    )

-- A served address marks exactly the instructions in flight that wait for it.
pub set_ready-Represents :
    (w : InstWindow) (q : List Entry) (addr : ℤ)
    → Represents w q
    → (w' : InstWindow) × (set_ready w addr ≡ ok w') × Represents w' (map (mark addr) q)
set_ready-Represents w [] addr r =
    let zero_load : (w.load == 0) ≡ true = (let l = r.loaded in ground arith) in
    (w, rw zero_load refl, r)
set_ready-Represents w (e ∷ q) addr r =
    let some_load : (w.load == 0) ≡ false = (let l = r.loaded in ground arith) in
    let (readies, loop, m) =
      set_ready_loop-Marked w w.tail_idx (e ∷ q) addr r.tail r.room r.slots in
    let n = length-map (mark addr) (e ∷ q) in
    (
      record w { ready_list = readies },
      rw some_load (ap (λ n. set_ready_loop n w.tail_idx addr w) r.loaded ∙ loop),
      record {
        readies = m.size ∙ r.readies;
        addrs = r.addrs;
        tail = r.tail;
        loaded = r.loaded ∙ sym n;
        room = (let h = r.room in omega (arith, n, h));
        head = r.head ∙ sym (ap (λ k. advance w.depth k w.tail_idx) n);
        slots = m.slots;
      },
    )
