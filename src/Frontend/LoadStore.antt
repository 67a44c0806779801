-- ===== src/Frontend/LoadStore.antt =====
-- src/frontend/impl/memory_trace/loadstore_trace.cpp: a trace of loads and stores, sent in a cycle.
use Prim.Native.String.{String}
use text.Mathlib.Text.{◌==◌ as str_eq}
use native.Mathlib.Nat.{mod-lt}
use aim_simulator.Base.{
  ℕ, zero, suc, ◌+◌, ◌%◌, ◌<◌, ◌≡◌, refl, ◌∙◌, Bool, true, false, List, [], ◌∷◌, ℤ, pos, leb,
  Result, ok, err, configuration_error, undefined, or_fail, ◌>>=◌, if◌then◌else◌, length, get_elem?,
  get_elem?-lt, arith,
}
use aim_simulator.Isr.Table.{read, write, type_to_int}
use aim_simulator.Request.{Request, default_request}
use aim_simulator.Frontend.Tokens.{tokenize}
use aim_simulator.Frontend.Numbers.{token_decoder}

-- `Trace`.
pub record Access : Type 0 where
  pub is_write : Bool
  pub addr : ℤ

pub record LoadStoreTrace : Type 0 where
  pub trace : List Access
  pub curr_trace_idx : ℕ
  pub trace_count : ℕ

-- `init_trace`: a line, and the loop over the lines. An address is read as `token_decoder` reads it.
unfoldable pub access_of : List String → Result Access
access_of (op ∷ addr ∷ []) =
    if str_eq op "LD"
    then (do a ← token_decoder 64 addr; ok (record { is_write = false; addr = a }))
    else if str_eq op "ST"
    then (do a ← token_decoder 64 addr; ok (record { is_write = true; addr = a }))
    else err configuration_error
access_of _ = err configuration_error

unfoldable pub read_accesses : List String → Result (List Access)
read_accesses [] = ok []
read_accesses (line ∷ lines) = do
  a ← access_of (tokenize b' ' line)
  rest ← read_accesses lines
  ok (a ∷ rest)

unfoldable pub init_trace : List String → Result LoadStoreTrace
init_trace lines = do
  accesses ← read_accesses lines
  ok (record { trace = accesses; curr_trace_idx = 0; trace_count = 0 })

-- `{t.addr, t.is_write ? (int)Type::Write : (int)Type::Read}`.
abbrev pub access_request : Access → Request
access_request a =
    let type = if a.is_write then write else read in
    record default_request { addr = a.addr; type = type; type_id = pos (type_to_int type) }

abbrev pub is_finished : LoadStoreTrace → Bool
is_finished t = leb (length t.trace) t.trace_count

module _ {S : Type 0} (send : S → Request → Result (S × Bool)) where
  unfoldable pub tick : S → LoadStoreTrace → Result (S × LoadStoreTrace)
  tick s t = do
    a ← or_fail (get_elem? t.trace t.curr_trace_idx) undefined
    (s', sent) ← send s (access_request a)
    ok (
      s',
      if sent
          then record t {
            curr_trace_idx = (t.curr_trace_idx + 1) % length t.trace;
            trace_count = t.trace_count + 1;
          }
          else t,
    )

  unfoldable pub ticks : ℕ → S → LoadStoreTrace → Result (S × LoadStoreTrace)
  ticks zero s t = ok (s, t)
  ticks (suc n) s t = do (s', t') ← tick s t; ticks n s' t'

  -- When the memory system takes every request, the frontend runs on without an error, and it has
  -- finished exactly once it has made as many ticks, with those before, as its trace has accesses.
  pub ticks-is_finished :
      (accepts : (s : S) (r : Request) → (s' : S) × (send s r ≡ ok (s', true))) (n : ℕ) (s : S)
      (t : LoadStoreTrace)
      → t.curr_trace_idx < length t.trace
      → (s' : S) × (t' : LoadStoreTrace) × (ticks n s t ≡ ok (s', t'))
        × (is_finished t' ≡ leb (length t.trace) (t.trace_count + n))
  unfolding tick ticks
  ticks-is_finished accepts zero s t h = (s, t, refl, ground arith)
  ticks-is_finished accepts (suc n) s t h =
      let (a, e) = get_elem?-lt t.trace t.curr_trace_idx h in
      let (s1, e1) = accepts s (access_request a) in
      let t1 : LoadStoreTrace = record t {
        curr_trace_idx = (t.curr_trace_idx + 1) % length t.trace;
        trace_count = t.trace_count + 1;
      } in
      let (s2, t2, e2, f) =
        ticks-is_finished accepts n s1 t1 (mod-lt (t.curr_trace_idx + 1) (omega arith)) in
      (s2, t2, rw (e, e1) e2, f ∙ ground arith)
