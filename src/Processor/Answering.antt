-- ===== src/Processor/Answering.antt =====
-- `send` and `receive` of the cache, whether they fail, and the state that they leave
-- (src/frontend/impl/processor/simpleO3/llc.cpp).
use aim_simulator.Base.{
  ◌+◌, ◌<◌, ◌≡◌, refl, Bool, true, false, [], ◌∷◌, ◌++◌, ℤ, ◌==◌, ◌||◌, Option, some, none, Result,
  Error, ok, err, ◌⊎◌, sym, ◌∙◌, length, Bool-cases, inl, inr, arith,
}
use aim_simulator.Isr.Table.{RequestType, read, write}
use aim_simulator.Request.{Request}
use aim_simulator.Processor.Cache.{
  CacheLine, MshrEntry, Llc, get_index, get_tag, put_set, put_requests, check_set_hit, if_ready,
  has_tag, find_line, is_some_line, check_mshr_hit, erase_mshr, with_node, write_line, count_access,
  count_miss, hit, line_available, miss, send_miss, send_found, send_counted, send, receive_found,
  receive,
}
use aim_simulator.Processor.Flight.{in_flight-has_node, in_flight-with_same}
use aim_simulator.Processor.Registers.{
  Flights-put, Flights-erase, found_flight, length-erase_mshr-le,
}
use aim_simulator.Processor.Sound.{
  IsSound, count_access-IsSound, count_miss-IsSound, hit-IsSound, allocate-IsSound,
}

-- The line of a register that was found is there to be written.
written :
    (c : Llc) (a : ℤ) (m : MshrEntry) (f : CacheLine → CacheLine)
    → check_mshr_hit c.linesize_bytes a c.mshrs ≡ some m
    → IsSound c
    → write_line c m f
      ≡ ok (record c {
        cache_sets =
            put_set c.cache_sets m.set_index (with_node m.node f (c.cache_sets m.set_index));
      })
unfolding write_line
written c a m f found s =
    let flies =
      found_flight c.linesize_bytes a c.mshrs c.cache_sets c.next_node m found s.flights in
    rw (in_flight-has_node m.node (c.cache_sets m.set_index) flies) refl

-- A second miss on a line in flight joins its register.
joined-IsSound :
    (c : Llc) (req : Request) (a : ℤ) (dirty : Bool) (m : MshrEntry)
    → check_mshr_hit c.linesize_bytes a c.mshrs ≡ some m
    → IsSound c
    → (c' : Llc) × (miss c req dirty (some m) ≡ ok (c', true)) × IsSound c'
unfolding miss
joined-IsSound c req a dirty m found s =
    let c1 : Llc = record c {
      receive_requests =
          put_requests c.receive_requests m.addr (c.receive_requests m.addr ++ req ∷ []);
    } in
    let f : CacheLine → CacheLine = (λ l. record l { dirty = dirty || l.dirty }) in
    let s1 : IsSound c1 = (record { room = s.room; flights = s.flights }) in
    (
      record c1 {
        cache_sets =
            put_set c.cache_sets m.set_index (with_node m.node f (c.cache_sets m.set_index));
      },
      rw (written c1 a m f found s1) refl,
      record {
        room = s.room;
        flights =
            Flights-put c.mshrs c.cache_sets m.set_index c.next_node c.next_node _
              (λ n flies.
                in_flight-with_same n m.node f (c.cache_sets m.set_index) (λ l. (refl, refl)) flies)
              (omega arith) s.flights;
      },
    )

miss-IsSound :
    (c : Llc) (req : Request) (a : ℤ) (dirty : Bool) (o : Option MshrEntry)
    → check_mshr_hit c.linesize_bytes a c.mshrs ≡ o
    → IsSound c
    → (c' : Llc) × (b : Bool) × (miss c req dirty o ≡ ok (c', b)) × IsSound c'
unfolding miss
miss-IsSound c req a dirty (some m) found s =
    let (c', e, s') = joined-IsSound c req a dirty m found s in (c', true, e, s')
miss-IsSound c req a dirty none found s = elim (Bool-cases (length c.mshrs == c.num_mshrs)) [
  | inl full ↦ (
    record c { mshr_unavailable = c.mshr_unavailable + 1 },
    false,
    rw full refl,
    record { room = s.room; flights = s.flights },
  )
  | inr left ↦ elim (Bool-cases (line_available c (c.cache_sets (get_index c req.addr)))) [
    | inr waits ↦ (c, false, rw (left, waits) refl, s)
    | inl free ↦
        let less : length c.mshrs < c.num_mshrs = (let r = s.room in ground arith) in
        let (c', e, s') = allocate-IsSound c req dirty free less s in
        (c', true, rw (left, free, e) refl, s')
  ]
]

-- Whether a line of the set has the tag of the address.
abbrev pub is_present : Llc → ℤ → Bool
is_present c a = is_some_line (find_line (has_tag (get_tag c a)) (c.cache_sets (get_index c a)))

count_access-is_present :
    (t : RequestType) (c : Llc) (a : ℤ) → is_present (count_access t c) a ≡ is_present c a
unfolding get_tag get_index
count_access-is_present read c a = refl
count_access-is_present write c a = refl
count_access-is_present _ c a = refl

-- `check_set_hit` fails only where the read through the end iterator does.
check_set_hit-fails :
    (end_read : Result Bool) (o : Option CacheLine) (e : Error)
    → if_ready end_read o ≡ err e
    → (end_read ≡ err e) × (is_some_line o ≡ false)
check_set_hit-fails (err x) none e h = (ground arith, refl)
check_set_hit-fails (ok b) none e h = absurd (ground arith)
check_set_hit-fails end_read (some l) e h = absurd (ground arith)

found-IsSound :
    (end_read : Result Bool) (c : Llc) (req : Request) (o : Option CacheLine)
    → check_set_hit end_read (get_tag c req.addr) (c.cache_sets (get_index c req.addr)) ≡ ok o
    → IsSound c
    → (c' : Llc) × (b : Bool) × (send_found c req o ≡ ok (c', b)) × IsSound c'
unfolding send_found send_miss
found-IsSound end_read c req (some line) h s =
    (hit c req line, true, refl, hit-IsSound end_read c req line h s)
found-IsSound end_read c req none h s =
    miss-IsSound (count_miss req.type c) _ req.addr _ _ refl (count_miss-IsSound req.type c s)

-- `send` has an answer and leaves a sound state.
abbrev pub Answered : Result Bool → Llc → Request → Type 0
Answered end_read c req = (c' : Llc) × (b : Bool) × (send end_read c req ≡ ok (c', b)) × IsSound c'

-- `send` fails as the read through the end iterator does, on an address that is absent.
abbrev pub PastEnd : Result Bool → Llc → Request → Type 0
PastEnd end_read c req =
    (e : Error) × (send end_read c req ≡ err e)
    × (end_read ≡ err e)
    × (is_present c req.addr ≡ false)

checked :
    (end_read : Result Bool) (c : Llc) (req : Request) (r : Result (Option CacheLine))
    → check_set_hit end_read (get_tag c req.addr) (c.cache_sets (get_index c req.addr)) ≡ r
    → IsSound c
    → ((c' : Llc) × (b : Bool) × (send_counted end_read c req ≡ ok (c', b)) × IsSound c')
      ⊎ ((e : Error) × (send_counted end_read c req ≡ err e)
          × (end_read ≡ err e)
          × (is_present c req.addr ≡ false))
unfolding send_counted
checked end_read c req (ok o) h s =
    let (c', b, e, s') = found-IsSound end_read c req o h s in inl (c', b, rw h e, s')
checked end_read c req (err e) h s =
    let (past, absent) = check_set_hit-fails end_read _ e h in inr (e, rw h refl, past, absent)

-- In a sound state `send` answers and leaves a sound state, with no more registers than there are: it
-- fails neither for want of a victim nor on a line that is gone. It can fail in one way alone: no line
-- has the tag of the address, so that `check_set_hit` reads through the end iterator, and that read
-- is an error, which is then the error of `send`.
pub send-IsSound :
    (end_read : Result Bool) (c : Llc) (req : Request)
    → IsSound c
    → Answered end_read c req ⊎ PastEnd end_read c req
send-IsSound end_read c req s =
    let counted = count_access-IsSound req.type c s in
    elim (checked end_read (count_access req.type c) req _ refl counted) [
      | inl answered ↦ inl answered
      | inr (e, fails, past, absent) ↦
          inr (e, fails, past, sym (count_access-is_present req.type c req.addr) ∙ absent)
    ]

receive_found-IsSound :
    (c : Llc) (req : Request) (o : Option MshrEntry)
    → check_mshr_hit c.linesize_bytes req.addr c.mshrs ≡ o
    → IsSound c
    → (c' : Llc) × (receive_found c req o ≡ ok c') × IsSound c'
unfolding receive_found
receive_found-IsSound c req none h s = (c, refl, s)
receive_found-IsSound c req (some m) h s =
    let f : CacheLine → CacheLine = (λ l. record l { ready = true }) in
    let less = length-erase_mshr-le c.linesize_bytes req.addr c.mshrs in
    (
      record c {
        cache_sets =
            put_set c.cache_sets m.set_index (with_node m.node f (c.cache_sets m.set_index));
        mshrs = erase_mshr c.linesize_bytes req.addr c.mshrs;
      },
      rw (written c req.addr m f h s) refl,
      record {
        room = (let r = s.room in omega (arith, less, r));
        flights =
            Flights-erase c.linesize_bytes req.addr c.mshrs c.cache_sets c.next_node m f (λ l. refl)
              h s.flights;
      },
    )

-- In a sound state `receive` never fails and leaves a sound state, whatever answers arrive: the line
-- that a register waits for is still there.
pub receive-IsSound :
    (c : Llc) (req : Request) → IsSound c → (c' : Llc) × (receive c req ≡ ok c') × IsSound c'
receive-IsSound c req s = receive_found-IsSound c req _ refl s
