-- ===== src/Processor/Sound.antt =====
-- The cache answers every request, and its miss registers stay with their lines
-- (src/frontend/impl/processor/simpleO3/llc.cpp, `send` and `receive`).
use aim_simulator.Base.{
  ◌+◌, ◌≤◌, ◌<◌, ◌≡◌, refl, sym, ap, ◌∙◌, Bool, true, false, List, [], ◌∷◌, ◌++◌, ℤ, ◌==◌, Option,
  some, none, Result, ok, err, length, length-append, Bool-cases, Option-cases, ==_iff, inl, inr,
  arith,
}
use aim_simulator.Isr.Table.{RequestType, read, write}
use aim_simulator.Request.{Request}
use aim_simulator.Processor.Cache.{
  CacheLine, MshrEntry, Llc, get_index, get_tag, put_set, put_requests, find_line, has_tag,
  if_ready, check_set_hit, count_access, count_miss, hit, is_ready, is_some_line, need_eviction,
  evict_line, make_room, allocate, line_available,
}
use aim_simulator.Processor.Flight.{
  in_flight, in_flight-append, in_flight-last, in_flight-erase, find_line-append,
}
use aim_simulator.Processor.Registers.{Flights, Flights-put, Flights-add}

-- There are not too many miss registers, and each has a line in flight of its own.
pub record IsSound (c : Llc) : Type 0 where
  pub room : length c.mshrs ≤ c.num_mshrs
  pub flights : Flights c.mshrs c.cache_sets c.next_node

pub count_access-IsSound : (t : RequestType) (c : Llc) → IsSound c → IsSound (count_access t c)
count_access-IsSound read c s = record { room = s.room; flights = s.flights }
count_access-IsSound write c s = record { room = s.room; flights = s.flights }
count_access-IsSound _ c s = s

pub count_miss-IsSound : (t : RequestType) (c : Llc) → IsSound c → IsSound (count_miss t c)
count_miss-IsSound read c s = record { room = s.room; flights = s.flights }
count_miss-IsSound write c s = record { room = s.room; flights = s.flights }
count_miss-IsSound _ c s = s

if_ready_lem :
    (end_read : Result Bool) (o : Option CacheLine) (l : CacheLine)
    → if_ready end_read o ≡ ok (some l)
    → (o ≡ some l) × (l.ready ≡ true)
if_ready_lem (err e) none l h = absurd (ground arith)
if_ready_lem (ok b) none l h = absurd (ground arith)
if_ready_lem end_read (some k) l h = elim (Bool-cases k.ready) [
  | inl ready ↦
      let h1 = rw ready at h in
      let e : k ≡ l = ground arith in (ap some e, ap (λ (x : CacheLine). x.ready) (sym e) ∙ ready)
  | inr waits ↦ absurd (let h1 = rw waits at h in ground arith)
]

pub hit-IsSound :
    (end_read : Result Bool) (c : Llc) (req : Request) (line : CacheLine)
    → check_set_hit end_read (get_tag c req.addr) (c.cache_sets (get_index c req.addr))
      ≡ ok (some line)
    → IsSound c
    → IsSound (hit c req line)
unfolding hit
hit-IsSound end_read c req line h s =
    let t = get_tag c req.addr in
    let set = c.cache_sets (get_index c req.addr) in
    let (found, ready) = if_ready_lem end_read (find_line (has_tag t) set) line h in
    record {
      room = s.room;
      flights =
          Flights-put c.mshrs c.cache_sets (get_index c req.addr) c.next_node (c.next_node + 1) _
            (λ n flies.
              in_flight-erase n (has_tag t) _ line (find_line-append (has_tag t) set _ line found)
                ready (in_flight-append n set _ flies))
            (omega arith) s.flights;
    }

find_line-ready :
    (ls : List CacheLine) (l : CacheLine) → find_line is_ready ls ≡ some l → l.ready ≡ true
find_line-ready [] l h = absurd (ground arith)
find_line-ready (k ∷ ls) l h = elim (Bool-cases k.ready) [
  | inl ready ↦
      let h1 = rw ready at h in
      let e : k ≡ l = ground arith in ap (λ (x : CacheLine). x.ready) (sym e) ∙ ready
  | inr waits ↦ find_line-ready ls l (rw waits at h)
]

-- A set with room, or with a line that has arrived, needs no victim that it lacks.
crowded :
    (c : Llc) (set : List CacheLine) (a : ℤ)
    → find_line is_ready set ≡ none
    → line_available c set ≡ true
    → need_eviction c set a ≡ true
    → ⊥
crowded c set a nothing free full =
    let free1 = rw nothing at free in
    elim (Bool-cases (is_some_line (find_line (has_tag (get_tag c a)) set))) [
      | inl tagged ↦ let full1 = rw tagged at full in ground arith
      | inr other ↦ let full1 = rw other at full in ground arith
    ]

-- What making room keeps.
record Roomy (c c' : Llc) : Type 0 where
  sound : Flights c.mshrs c'.cache_sets c.next_node
  same_mshrs : c'.mshrs ≡ c.mshrs
  same_node : c'.next_node ≡ c.next_node
  same_limit : c'.num_mshrs ≡ c.num_mshrs

make_room-Roomy :
    (c : Llc) (a : ℤ)
    → line_available c (c.cache_sets (get_index c a)) ≡ true
    → IsSound c
    → (c' : Llc) × (make_room c a ≡ ok c') × Roomy c c'
unfolding make_room evict_line
make_room-Roomy c a free s =
    let i = get_index c a in
    let set = c.cache_sets i in
    elim (Bool-cases (need_eviction c set a)) [
      | inr enough ↦ (
        c,
        rw enough refl,
        record { sound = s.flights; same_mshrs = refl; same_node = refl; same_limit = refl },
      )
      | inl full ↦ elim (Option-cases (find_line is_ready set)) [
        | inl nothing ↦ absurd (crowded c set a nothing free full)
        | inr found ↦
            let (victim, e) = found in
            (
              evict_line c i victim,
              rw (full, e) refl,
              record {
                sound =
                    Flights-put c.mshrs c.cache_sets i c.next_node c.next_node _
                      (λ n flies.
                        in_flight-erase n is_ready set victim e (find_line-ready set victim e)
                          flies)
                      (omega arith) s.flights;
                same_mshrs = refl;
                same_node = refl;
                same_limit = refl;
              },
            )
      ]
    ]

pub allocate-IsSound :
    (c : Llc) (req : Request) (dirty : Bool)
    → line_available c (c.cache_sets (get_index c req.addr)) ≡ true
    → length c.mshrs < c.num_mshrs
    → IsSound c
    → (c' : Llc) × (allocate c req dirty ≡ ok c') × IsSound c'
unfolding allocate
allocate-IsSound c req dirty free less s =
    let i = get_index c req.addr in
    let (c1, e, r) = make_room-Roomy c req.addr free s in
    let line : CacheLine = record {
      node = c1.next_node;
      addr = req.addr;
      tag = get_tag c req.addr;
      dirty = dirty;
      ready = false;
    } in
    let entry : MshrEntry = record { addr = req.addr; set_index = i; node = c1.next_node } in
    let set = c1.cache_sets i in
    let sets = put_set c1.cache_sets i (set ++ line ∷ []) in
    let before : Flights c1.mshrs c1.cache_sets c1.next_node =
      rw (r.same_mshrs, r.same_node) (r.sound) in
    let kept =
      Flights-put c1.mshrs c1.cache_sets i c1.next_node c1.next_node (set ++ line ∷ [])
        (λ n flies. in_flight-append n set (line ∷ []) flies) (omega arith) before in
    let self : (i == i) ≡ true = (==_iff i i).1 refl in
    let flies : in_flight c1.next_node (sets i) ≡ true =
      rw self (in_flight-last c1.next_node set line refl refl) in
    let len = length-append c1.mshrs (entry ∷ []) in
    let same : length c1.mshrs ≡ length c.mshrs =
      ap (λ (l : List MshrEntry). length l) r.same_mshrs in
    (
      record c1 {
        cache_sets = sets;
        next_node = c1.next_node + 1;
        mshrs = c1.mshrs ++ entry ∷ [];
        receive_requests = put_requests c1.receive_requests req.addr (req ∷ []);
        miss_list = c1.miss_list ++ (c1.clk + c1.latency, req) ∷ [];
      },
      rw e refl,
      record {
        room = (let limit = r.same_limit in omega (arith, len, same, limit, less));
        flights = Flights-add c1.mshrs sets entry flies kept;
      },
    )
