-- ===== src/Processor/Cache.antt =====
-- src/frontend/impl/processor/simpleO3/llc.h and llc.cpp: the last-level cache.
use aim_simulator.Base.{
  ℕ, zero, suc, ◌+◌, ◌-◌, ◌*◌, ◌/◌, ◌%◌, ◌^◌, Bool, true, false, List, [], ◌∷◌, ◌++◌, ℤ, pos,
  negsuc, eqb_ℤ, to_uint, ltb, ◌==◌, ◌||◌, not, Option, some, none, Result, ok, err, runtime_error,
  undefined, ◌>>=◌, if◌then◌else◌, length,
}
use aim_simulator.Isr.Table.{RequestType, read, write, type_eq, type_to_int}
use aim_simulator.Request.{Request, default_request}

-- `Line`, with the identity of its list node, which an iterator keeps.
pub record CacheLine : Type 0 where
  pub node : ℕ
  pub addr : ℤ
  pub tag : ℤ
  pub dirty : Bool
  pub ready : Bool

-- `MSHREntry_t`: the address, and the iterator, a node of a set.
pub record MshrEntry : Type 0 where
  pub addr : ℤ
  pub set_index : ℕ
  pub node : ℕ

-- The cache. `cache_sets` and `receive_requests` are maps, in which a missing key stands for an empty
-- list; `next_node` numbers the list nodes.
pub record Llc : Type 0 where
  pub clk : ℕ
  pub latency : ℕ
  pub linesize_bytes : ℕ
  pub associativity : ℕ
  pub num_mshrs : ℕ
  pub index_mask : ℕ
  pub index_offset : ℕ
  pub tag_offset : ℕ
  pub cache_sets : ℕ → List CacheLine
  pub mshrs : List MshrEntry
  pub receive_requests : ℤ → List Request
  pub miss_list : List (ℕ × Request)
  pub hit_list : List (ℕ × Request)
  pub next_node : ℕ
  pub read_access : ℕ
  pub write_access : ℕ
  pub read_misses : ℕ
  pub write_misses : ℕ
  pub evictions : ℕ
  pub mshr_unavailable : ℕ

-- `a & b` on `w` bits.
unfoldable pub and_bits : ℕ → ℕ → ℕ → ℕ
and_bits zero a b = 0
and_bits (suc w) a b = a % 2 * (b % 2) + 2 * and_bits w (a / 2) (b / 2)

-- `a >> k`, which keeps the sign.
abbrev pub shift_right : ℤ → ℕ → ℤ
shift_right (pos n) k = pos (n / 2 ^ k)
shift_right (negsuc n) k = negsuc (n / 2 ^ k)

unfoldable pub get_index : Llc → ℤ → ℕ
get_index c a = and_bits 64 (to_uint 64 (shift_right a c.index_offset)) c.index_mask

unfoldable pub get_tag : Llc → ℤ → ℤ
get_tag c a = shift_right a c.tag_offset

-- `align`, as a 64-bit pattern.
unfoldable pub align : ℕ → ℤ → ℕ
align linesize_bytes a = and_bits 64 (to_uint 64 a) (2 ^ 64 - linesize_bytes)

-- `m[k] = v` for the two maps.
abbrev pub put_set : (ℕ → List CacheLine) → ℕ → List CacheLine → ℕ → List CacheLine
put_set sets i lines j = if j == i then lines else sets j

abbrev pub put_requests : (ℤ → List Request) → ℤ → List Request → ℤ → List Request
put_requests m a rs b = if eqb_ℤ b a then rs else m b

-- `std::find_if` on a set, and `set.erase` of what it finds.
abbrev pub find_line : (CacheLine → Bool) → List CacheLine → Option CacheLine
find_line p [] = none
find_line p (l ∷ ls) = if p l then some l else find_line p ls

abbrev pub erase_line : (CacheLine → Bool) → List CacheLine → List CacheLine
erase_line p [] = []
erase_line p (l ∷ ls) = if p l then ls else l ∷ erase_line p ls

abbrev pub has_tag : ℤ → CacheLine → Bool
has_tag t l = eqb_ℤ l.tag t

-- `check_set_hit`. When no line has the tag, the source reads `ready` through the end iterator, which
-- C++ does not define. What this read yields is the parameter `end_read`: an error, `undefined` by the
-- rules of the language, or the value that an implementation of `std::list` has there; the source
-- returns the end iterator whichever value it reads.
abbrev pub if_ready : Result Bool → Option CacheLine → Result (Option CacheLine)
if_ready (err e) none = err e
if_ready (ok b) none = ok none
if_ready end_read (some l) = ok (if l.ready then some l else none)

abbrev pub check_set_hit : Result Bool → ℤ → List CacheLine → Result (Option CacheLine)
check_set_hit end_read t set = if_ready end_read (find_line (has_tag t) set)

-- `check_mshr_hit`, and the look-up of `receive`.
abbrev pub check_mshr_hit : ℕ → ℤ → List MshrEntry → Option MshrEntry
check_mshr_hit line a [] = none
check_mshr_hit line a (m ∷ ms) =
    if align line m.addr == align line a then some m else check_mshr_hit line a ms

abbrev pub erase_mshr : ℕ → ℤ → List MshrEntry → List MshrEntry
erase_mshr line a [] = []
erase_mshr line a (m ∷ ms) =
    if align line m.addr == align line a then ms else m ∷ erase_mshr line a ms

-- A write through the iterator of a node; a node that is not in its set has been erased.
abbrev pub has_node : ℕ → List CacheLine → Bool
has_node n [] = false
has_node n (l ∷ ls) = l.node == n || has_node n ls

abbrev pub with_node : ℕ → (CacheLine → CacheLine) → List CacheLine → List CacheLine
with_node n f [] = []
with_node n f (l ∷ ls) = if l.node == n then f l ∷ ls else l ∷ with_node n f ls

unfoldable pub write_line : Llc → MshrEntry → (CacheLine → CacheLine) → Result Llc
write_line c m f =
    if has_node m.node (c.cache_sets m.set_index)
    then ok (record c {
      cache_sets = put_set c.cache_sets m.set_index (with_node m.node f (c.cache_sets m.set_index));
    })
    else err undefined

-- The statistics of `send`.
abbrev pub count_access : RequestType → Llc → Llc
count_access read c = record c { read_access = c.read_access + 1 }
count_access write c = record c { write_access = c.write_access + 1 }
count_access _ c = c

abbrev pub count_miss : RequestType → Llc → Llc
count_miss read c = record c { read_misses = c.read_misses + 1 }
count_miss write c = record c { write_misses = c.write_misses + 1 }
count_miss _ c = c

-- The hit branch: the line moves to the end of its set, as a new node.
unfoldable pub hit : Llc → Request → CacheLine → Llc
hit c req line =
    let i = get_index c req.addr in
    let t = get_tag c req.addr in
    let moved : CacheLine = record {
      node = c.next_node;
      addr = req.addr;
      tag = t;
      dirty = line.dirty || type_eq req.type write;
      ready = true;
    } in
    record c {
      cache_sets = put_set c.cache_sets i (erase_line (has_tag t) (c.cache_sets i ++ moved ∷ []));
      hit_list = c.hit_list ++ (c.clk + c.latency, req) ∷ [];
      next_node = c.next_node + 1;
    }

abbrev pub is_ready : CacheLine → Bool
is_ready l = l.ready

-- `need_eviction` of a release build.
abbrev pub is_some_line : Option CacheLine → Bool
is_some_line none = false
is_some_line (some l) = true

abbrev pub need_eviction : Llc → List CacheLine → ℤ → Bool
need_eviction c set a =
    if is_some_line (find_line (has_tag (get_tag c a)) set)
    then false
    else not (ltb (length set) c.associativity)

-- `evict_line`, on the set `i`.
unfoldable pub evict_line : Llc → ℕ → CacheLine → Llc
evict_line c i victim =
    let writeback = record default_request {
      addr = victim.addr;
      type = write;
      type_id = pos (type_to_int write);
    } in
    record c {
      evictions = c.evictions + 1;
      miss_list =
          if victim.dirty then c.miss_list ++ (c.clk + c.latency, writeback) ∷ [] else c.miss_list;
      cache_sets = put_set c.cache_sets i (erase_line is_ready (c.cache_sets i));
    }

-- The eviction in `allocate_line`; with no victim, `send` throws.
abbrev pub evict_from : Llc → ℕ → Option CacheLine → Result Llc
evict_from c i none = err runtime_error
evict_from c i (some victim) = ok (evict_line c i victim)

unfoldable pub make_room : Llc → ℤ → Result Llc
make_room c a =
    let i = get_index c a in
    if need_eviction c (c.cache_sets i) a
    then evict_from c i (find_line is_ready (c.cache_sets i))
    else ok c

-- `allocate_line` and what `send` does with the new line.
unfoldable pub allocate : Llc → Request → Bool → Result Llc
allocate c req dirty = do
  c' ← make_room c req.addr
  let i = get_index c req.addr
  let line : CacheLine = record {
    node = c'.next_node;
    addr = req.addr;
    tag = get_tag c req.addr;
    dirty = dirty;
    ready = false;
  }
  ok (record c' {
    cache_sets = put_set c'.cache_sets i (c'.cache_sets i ++ line ∷ []);
    next_node = c'.next_node + 1;
    mshrs = c'.mshrs ++ record { addr = req.addr; set_index = i; node = c'.next_node } ∷ [];
    receive_requests = put_requests c'.receive_requests req.addr (req ∷ []);
    miss_list = c'.miss_list ++ (c'.clk + c'.latency, req) ∷ [];
  })

abbrev pub line_available : Llc → List CacheLine → Bool
line_available c set = ltb (length set) c.associativity || is_some_line (find_line is_ready set)

-- The miss branch after the look-up of the miss registers; `req` is a read by then.
unfoldable pub miss : Llc → Request → Bool → Option MshrEntry → Result (Llc × Bool)
miss c req dirty (some m) = do
  let c' = record c {
    receive_requests =
        put_requests c.receive_requests m.addr (c.receive_requests m.addr ++ req ∷ []);
  }
  c'' ← write_line c' m (λ l. record l { dirty = dirty || l.dirty })
  ok (c'', true)
miss c req dirty none =
    if length c.mshrs == c.num_mshrs
    then ok (record c { mshr_unavailable = c.mshr_unavailable + 1 }, false)
    else if not (line_available c (c.cache_sets (get_index c req.addr)))
    then ok (c, false)
    else (do c' ← allocate c req dirty; ok (c', true))

-- A miss: a write fetches the line first, as a read.
unfoldable pub send_miss : Llc → Request → Result (Llc × Bool)
send_miss c req =
    let dirty = type_eq req.type write in
    miss c (if dirty then record req { type = read } else req) dirty
      (check_mshr_hit c.linesize_bytes req.addr c.mshrs)

unfoldable pub send_found : Llc → Request → Option CacheLine → Result (Llc × Bool)
send_found c req (some line) = ok (hit c req line, true)
send_found c req none = send_miss (count_miss req.type c) req

unfoldable pub send_counted : Result Bool → Llc → Request → Result (Llc × Bool)
send_counted end_read c req = do
  line ← check_set_hit end_read (get_tag c req.addr) (c.cache_sets (get_index c req.addr))
  send_found c req line

abbrev pub send : Result Bool → Llc → Request → Result (Llc × Bool)
send end_read c req = send_counted end_read (count_access req.type c) req

-- `receive`.
unfoldable pub receive_found : Llc → Request → Option MshrEntry → Result Llc
receive_found c req none = ok c
receive_found c req (some m) = do
  c' ← write_line c m (λ l. record l { ready = true })
  ok (record c' { mshrs = erase_mshr c'.linesize_bytes req.addr c'.mshrs })

abbrev pub receive : Llc → Request → Result Llc
receive c req = receive_found c req (check_mshr_hit c.linesize_bytes req.addr c.mshrs)
