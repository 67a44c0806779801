-- ===== src/Processor/Queue.antt =====
-- The ring of the instruction window is a queue (src/frontend/impl/processor/simpleO3/core.cpp,
-- `insert`, `retire` and `set_ready`).
use aim_simulator.Base.{
  ℕ, zero, suc, ◌+◌, ◌-◌, ◌%◌, ◌≤◌, ◌<◌, ◌≡◌, ◌≢◌, refl, sym, ap, ◌∙◌, Bool, true, false, List, [],
  ◌∷◌, ◌++◌, ℤ, ◌==◌, ltb, some, ok, length, get_elem?, set, length-append, length-set,
  get_elem?-set_self, get_elem?-set_ne, get_elem?-lt, arith,
}
use aim_simulator.Processor.Window.{InstWindow, write_at, insert, is_full, retire_loop, retire}
use aim_simulator.Processor.Ring.{next, next-mod, advance, advance-lt, advance_lem, advance-suc}

-- An instruction in the window: whether it is ready, and its address.
abbrev pub Entry : Type 0
Entry = Bool × ℤ

-- The slots from a position on hold these instructions.
abbrev pub Slots : List Bool → List ℤ → ℕ → ℕ → List Entry → Type 0
Slots readies addrs d i [] = Unit
Slots readies addrs d i (e ∷ q) =
    (get_elem? readies i ≡ some e.0)
    × (get_elem? addrs i ≡ some e.1)
    × Slots readies addrs d (next d i) q

-- The window holds a queue of instructions, the oldest first.
pub record Represents (w : InstWindow) (q : List Entry) : Type 0 where
  pub readies : length w.ready_list ≡ w.depth
  pub addrs : length w.addr_list ≡ w.depth
  pub tail : w.tail_idx < w.depth
  pub loaded : w.load ≡ length q
  pub room : length q ≤ w.depth
  pub head : w.head_idx ≡ advance w.depth (length q) w.tail_idx
  pub slots : Slots w.ready_list w.addr_list w.depth w.tail_idx q

-- A write elsewhere.
pub Slots-set :
    (readies : List Bool) (addrs : List ℤ) (d i j : ℕ) (q : List Entry) (b : Bool) (a : ℤ)
    → ((k : ℕ) → k < length q → advance d k i ≢ j)
    → Slots readies addrs d i q
    → Slots (set readies j b) (set addrs j a) d i q
Slots-set readies addrs d i j [] b a apart s = tt
Slots-set readies addrs d i j (e ∷ q) b a apart s =
    let here : j ≢ i = (λ eq. apart 0 (omega arith) (sym eq)) in
    (
      get_elem?-set_ne readies j i b here ∙ s.0,
      get_elem?-set_ne addrs j i a here ∙ s.1,
      Slots-set readies addrs d (next d i) j q b a (λ k h. apart (suc k) (omega arith)) s.2,
    )

Slots-append :
    (readies : List Bool) (addrs : List ℤ) (d i : ℕ) (q : List Entry) (b : Bool) (a : ℤ)
    → get_elem? readies (advance d (length q) i) ≡ some b
    → get_elem? addrs (advance d (length q) i) ≡ some a
    → Slots readies addrs d i q
    → Slots readies addrs d i (q ++ (b, a) ∷ [])
Slots-append readies addrs d i [] b a hb ha s = (hb, ha, tt)
Slots-append readies addrs d i (e ∷ q) b a hb ha s =
    (s.0, s.1, Slots-append readies addrs d (next d i) q b a hb ha s.2)

pub advance_apart : (d i k n : ℕ) → i < d → k < n → n < d → advance d k i ≢ advance d n i
advance_apart d i k n h below within =
    let a = advance_lem d k i h (omega (arith, below, within)) in
    let b = advance_lem d n i h (omega (arith, within)) in
    λ e. (let c = sym a ∙ e ∙ b in ground arith)

write_at_lem :
    {A : Type 0} (xs : List A) (i : ℕ) (a : A) → i < length xs → write_at xs i a ≡ ok (set xs i a)
write_at_lem xs i a h = let inside : ltb i (length xs) ≡ true = ground arith in rw inside refl

pub written :
    {A : Type 0} (xs : List A) (i : ℕ) (a : A) → i < length xs → get_elem? (set xs i a) i ≡ some a
written xs i a h = let (x, e) = get_elem?-lt xs i h in get_elem?-set_self xs i a x e

-- A window that is not full takes an instruction at the end of its queue.
pub insert-Represents :
    (w : InstWindow) (q : List Entry) (ready : Bool) (addr : ℤ)
    → Represents w q
    → is_full w ≡ false
    → (w' : InstWindow) × (insert w ready addr ≡ ok w') × Represents w' (q ++ (ready, addr) ∷ [])
unfolding insert
insert-Represents w q ready addr r free =
    let less : length q < w.depth = (let l = r.loaded in let m = r.room in ground arith) in
    let head_lt : w.head_idx < w.depth =
      rw (r.head) (advance-lt w.depth (length q) w.tail_idx r.tail) in
    let in_readies : w.head_idx < length w.ready_list = rw (r.readies) head_lt in
    let in_addrs : w.head_idx < length w.addr_list = rw (r.addrs) head_lt in
    let n = length-append q ((ready, addr) ∷ []) in
    let here = written w.ready_list w.head_idx ready in_readies in
    let there = written w.addr_list w.head_idx addr in_addrs in
    let kept =
      Slots-set w.ready_list w.addr_list w.depth w.tail_idx w.head_idx q ready addr
        (λ k h. rw (r.head) (advance_apart w.depth w.tail_idx k (length q) r.tail h less))
        r.slots in
    (
      record w {
        ready_list = set w.ready_list w.head_idx ready;
        addr_list = set w.addr_list w.head_idx addr;
        head_idx = (w.head_idx + 1) % w.depth;
        load = w.load + 1;
      },
      rw
          (
            write_at_lem w.ready_list w.head_idx ready in_readies,
            write_at_lem w.addr_list w.head_idx addr in_addrs,
          )
          refl,
      record {
        readies = length-set w.ready_list w.head_idx ready ∙ r.readies;
        addrs = length-set w.addr_list w.head_idx addr ∙ r.addrs;
        tail = r.tail;
        loaded = omega (arith, n, r.loaded);
        room = omega (arith, n, less);
        head =
            (let more : length (q ++ (ready, addr) ∷ []) ≡ suc (length q) = omega (arith, n) in
              next-mod w.depth w.head_idx head_lt
              ∙ ap (next w.depth) r.head
              ∙ sym (advance-suc w.depth (length q) w.tail_idx)
              ∙ sym (ap (λ m. advance w.depth m w.tail_idx) more));
        slots =
            Slots-append (set w.ready_list w.head_idx ready) (set w.addr_list w.head_idx addr)
              w.depth w.tail_idx q ready addr (rw (← r.head) here) (rw (← r.head) there) kept;
      },
    )

-- The oldest instructions that are ready, `n` of them at most: what is left, and their number.
abbrev pub retired : ℕ → List Entry → List Entry × ℕ
retired zero q = (q, 0)
retired (suc n) [] = ([], 0)
retired (suc n) ((false, a) ∷ q) = ((false, a) ∷ q, 0)
retired (suc n) ((true, a) ∷ q) = ((retired n q).0, suc (retired n q).1)

retire_head :
    (w : InstWindow) (e : Entry) (q : List Entry)
    → Represents w (e ∷ q)
    → Represents (record w { tail_idx = (w.tail_idx + 1) % w.depth; load = w.load - 1 }) q
retire_head w e q r =
    let on = next-mod w.depth w.tail_idx r.tail in
    let load = r.loaded in
    record {
      readies = r.readies;
      addrs = r.addrs;
      tail = rw on (advance-lt w.depth 1 w.tail_idx r.tail);
      loaded = ground arith;
      room = (let m = r.room in omega arith);
      head = rw on (r.head);
      slots = rw on (r.slots.2);
    }

retire_loop-Represents :
    (n : ℕ) (w : InstWindow) (q : List Entry) (num : ℕ)
    → Represents w q
    → (w' : InstWindow) × (retire_loop n w num ≡ ok (w', num + (retired n q).1))
      × Represents w' (retired n q).0
unfolding retire_loop
retire_loop-Represents zero w q num r = (w, ap (λ k. ok (w, k)) (omega arith), r)
retire_loop-Represents (suc n) w [] num r =
    let zero_load : (w.load == 0) ≡ true = (let l = r.loaded in ground arith) in
    (w, rw zero_load (ap (λ k. ok (w, k)) (omega arith)), r)
retire_loop-Represents (suc n) w ((false, a) ∷ q) num r =
    let some_load : (w.load == 0) ≡ false = (let l = r.loaded in ground arith) in
    (w, rw (some_load, r.slots.0) (ap (λ k. ok (w, k)) (omega arith)), r)
retire_loop-Represents (suc n) w ((true, a) ∷ q) num r =
    let some_load : (w.load == 0) ≡ false = (let l = r.loaded in ground arith) in
    let (w', e, r') = retire_loop-Represents n _ q (num + 1) (retire_head w (true, a) q r) in
    (w', rw (some_load, r.slots.0) (e ∙ ap (λ k. ok (w', k)) (omega arith)), r')

retired_nil : (n : ℕ) → retired n [] ≡ ([], 0)
retired_nil zero = refl
retired_nil (suc n) = refl

-- Retiring takes the oldest instructions that are ready, `ipc` of them at most, and no other.
pub retire-Represents :
    (w : InstWindow) (q : List Entry)
    → Represents w q
    → (w' : InstWindow) × (retire w ≡ ok (w', (retired w.ipc q).1))
      × Represents w' (retired w.ipc q).0
retire-Represents w [] r =
    let zero_load : (w.load == 0) ≡ true = (let l = r.loaded in ground arith) in
    (w, rw (zero_load, retired_nil w.ipc) refl, rw (retired_nil w.ipc) r)
retire-Represents w (e ∷ q) r =
    let some_load : (w.load == 0) ≡ false = (let l = r.loaded in ground arith) in
    let (w', h, r') = retire_loop-Represents w.ipc w (e ∷ q) 0 r in
    (w', rw some_load (h ∙ ap (λ k. ok (w', k)) (omega arith)), r')
