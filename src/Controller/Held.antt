-- ===== src/Controller/Held.antt =====
-- The requests that the controller holds, counted by what they are, and what issuing one does to
-- them (src/dram_controller/impl/AiM_dram_controller.cpp, `tick`).
use aim_simulator.Base.{
  ℕ, zero, suc, ◌+◌, ◌≤◌, ◌≡◌, refl, ap, Bool, true, false, List, [], ◌∷◌, ◌++◌, map, some, set,
  erase_at, arith, get_elem?, get_elem?-set_self, length-set, minus_one,
}
use aim_simulator.Request.{Request}
use aim_simulator.Request.Buffer.{ReqBuffer, size, enqueue, remove}
use aim_simulator.Controller.Device.{DramOps}
use aim_simulator.Controller.State.{Controller}
use aim_simulator.Controller.Schedule.{
  BufferId, active_id, priority_id, read_id, write_id, aim_id, get_buffer, set_buffer,
}
use aim_simulator.Controller.Tick.{remove_from, keep_at}
use aim_simulator.Controller.Frames.{uncommanded, SameRequests, Resched}

-- A request but for what the controller writes into it: its command, its last command, and the
-- times of its first and its last command.
abbrev pub identity : Request → Request
identity r = record r {
  command = minus_one;
  final_command = minus_one;
  issue = minus_one;
  depart = minus_one;
}

abbrev pub bit : Bool → ℕ
bit true = 1
bit false = 0

-- How many requests of a list have an identity that passes the test.
abbrev pub count : (Request → Bool) → List Request → ℕ
count p [] = 0
count p (r ∷ rs) = bit (p (identity r)) + count p rs

-- The same of the requests in the buffers and those that wait for their data.
abbrev pub held : (Request → Bool) → Controller → ℕ
held p c =
    count p c.active_buffer.buffer
    + count p c.priority_buffer.buffer
    + count p c.read_buffer.buffer
    + count p c.write_buffer.buffer
    + count p c.aim_buffer.buffer
    + count p c.pending_reads
    + count p c.pending_writes

module _ (p : Request → Bool) where
  pub count-append : (xs ys : List Request) → count p (xs ++ ys) ≡ count p xs + count p ys
  count-append [] ys = omega arith
  count-append (x ∷ xs) ys = omega (arith, count-append xs ys)

  count-erase_at :
      (xs : List Request) (i : ℕ) (x : Request)
      → get_elem? xs i ≡ some x
      → count p (erase_at xs i) + bit (p (identity x)) ≡ count p xs
  count-erase_at [] i x h = absurd (ground arith)
  count-erase_at (y ∷ xs) zero x h = let e : y ≡ x = ground arith in rw (← e) (omega arith)
  count-erase_at (y ∷ xs) (suc i) x h = omega (arith, count-erase_at xs i x h)

  pub count-set :
      (xs : List Request) (i : ℕ) (x y : Request)
      → get_elem? xs i ≡ some x
      → identity y ≡ identity x
      → count p (set xs i y) ≡ count p xs
  count-set [] i x y h same = absurd (ground arith)
  count-set (z ∷ xs) zero x y h same =
      let e : z ≡ x = ground arith in
      let same' : identity y ≡ identity z = rw e same in
      let passes : bit (p (identity y)) ≡ bit (p (identity z)) = ap (λ r. bit (p r)) same' in
      omega (arith, passes)
  count-set (z ∷ xs) (suc i) x y h same = omega (arith, count-set xs i x y h same)

  count-uncommanded : (xs : List Request) → count p (map uncommanded xs) ≡ count p xs
  count-uncommanded [] = refl
  count-uncommanded (x ∷ xs) = omega (arith, count-uncommanded xs)

  SameRequests-count :
      (b c : ReqBuffer Request) → SameRequests b c → count p c.buffer ≡ count p b.buffer
  SameRequests-count b c s =
      omega (arith, count-uncommanded b.buffer, count-uncommanded c.buffer, ap (count p) s.requests)

  pub Resched-held : (c e : Controller) → Resched c e → held p e ≡ held p c
  Resched-held c e s = omega (
    arith,
    SameRequests-count _ _ s.active,
    SameRequests-count _ _ s.priority,
    SameRequests-count _ _ s.reads,
    SameRequests-count _ _ s.writes,
    SameRequests-count _ _ s.aims,
    ap (count p) s.reads_pending,
    ap (count p) s.writes_pending,
  )

  pub set_buffer-held :
      (id : BufferId) (b : ReqBuffer Request) (c : Controller)
      → held p (set_buffer id b c) + count p (get_buffer id c).buffer ≡ held p c + count p b.buffer
  set_buffer-held active_id b c = omega arith
  set_buffer-held priority_id b c = omega arith
  set_buffer-held read_id b c = omega arith
  set_buffer-held write_id b c = omega arith
  set_buffer-held aim_id b c = omega arith

  -- What leaves the controller is the request at the position.
  pub remove_from-held :
      (id : BufferId) (i : ℕ) (c : Controller) (r : Request)
      → get_elem? (get_buffer id c).buffer i ≡ some r
      → held p (remove_from id i c) + bit (p (identity r)) ≡ held p c
  unfolding remove
  remove_from-held id i c r h = omega (
    arith,
    set_buffer-held id (remove (get_buffer id c) i) c,
    count-erase_at (get_buffer id c).buffer i r h,
  )

  pub enqueue-count :
      (b : ReqBuffer Request) (r : Request)
      → size b ≤ b.max_size
      → count p (enqueue b r).0.buffer ≡ count p b.buffer + bit (p (identity r))
  unfolding enqueue
  enqueue-count b r h = ground (arith, count-append b.buffer (r ∷ []))

get_elem?-append_left {ℓ} :
    {A : Type ℓ} (xs ys : List A) (i : ℕ) (x : A)
    → get_elem? xs i ≡ some x
    → get_elem? (xs ++ ys) i ≡ some x
get_elem?-append_left [] ys i x h = absurd (ground arith)
get_elem?-append_left (y ∷ xs) ys zero x h = h
get_elem?-append_left (y ∷ xs) ys (suc i) x h = get_elem?-append_left xs ys i x h

get_elem?-enqueue :
    (b : ReqBuffer Request) (r x : Request) (i : ℕ)
    → get_elem? b.buffer i ≡ some x
    → get_elem? (enqueue b r).0.buffer i ≡ some x
unfolding enqueue
get_elem?-enqueue b r x i h = ground (arith, get_elem?-append_left b.buffer (r ∷ []) i x h)

-- Where a request is kept, it stands at its position, and the active buffer has room as before.
pub keep_at-places :
    (ops : DramOps) (id : BufferId) (i : ℕ) (r x : Request) (c : Controller)
    → get_elem? (get_buffer id c).buffer i ≡ some x
    → let e = keep_at ops id i r c in
      (get_elem? (get_buffer id e).buffer i ≡ some r)
      × (size e.active_buffer ≡ size c.active_buffer)
      × (e.active_buffer.max_size ≡ c.active_buffer.max_size)
keep_at-places ops active_id i r x c h =
    (get_elem?-set_self _ i r x h, length-set c.active_buffer.buffer i r, refl)
keep_at-places ops priority_id i r x c h = (get_elem?-set_self _ i r x h, refl, refl)
keep_at-places ops read_id i r x c h = (get_elem?-set_self _ i r x h, refl, refl)
keep_at-places ops write_id i r x c h = (get_elem?-set_self _ i r x h, refl, refl)
keep_at-places ops aim_id i r x c h = (get_elem?-set_self _ i r x h, refl, refl)

-- A request more in the active buffer moves no request of any buffer.
pub activate-place :
    (id : BufferId) (i : ℕ) (r x : Request) (c : Controller)
    → get_elem? (get_buffer id c).buffer i ≡ some x
    → get_elem?
        (get_buffer id (record c { active_buffer = (enqueue c.active_buffer r).0 })).buffer
        i
      ≡ some x
activate-place active_id i r x c h = get_elem?-enqueue c.active_buffer r x i h
activate-place priority_id i r x c h = h
activate-place read_id i r x c h = h
activate-place write_id i r x c h = h
activate-place aim_id i r x c h = h

pub get_buffer-same :
    (c e : Controller) (id : BufferId)
    → c.active_buffer ≡ e.active_buffer
    → c.priority_buffer ≡ e.priority_buffer
    → c.read_buffer ≡ e.read_buffer
    → c.write_buffer ≡ e.write_buffer
    → c.aim_buffer ≡ e.aim_buffer
    → get_buffer id c ≡ get_buffer id e
get_buffer-same c e active_id p q r s t = p
get_buffer-same c e priority_id p q r s t = q
get_buffer-same c e read_id p q r s t = r
get_buffer-same c e write_id p q r s t = s
get_buffer-same c e aim_id p q r s t = t
