-- ===== src/Frontend/ReadWrite.antt =====
-- src/frontend/impl/memory_trace/readwrite_trace.cpp: a trace of reads and writes at address vectors.
use Prim.Native.String.{String}
use text.Mathlib.Text.{◌==◌ as str_eq}
use aim_simulator.Base.{
  ℕ, ◌+◌, ◌%◌, Bool, true, false, List, [], ◌∷◌, ℤ, pos, to_int32, Result, ok, err,
  configuration_error, undefined, or_fail, ◌>>=◌, if◌then◌else◌, length, get_elem?,
}
use aim_simulator.Isr.Table.{read, write, type_to_int}
use aim_simulator.Request.{Request, default_request}
use aim_simulator.Frontend.Tokens.{tokenize}
use aim_simulator.Frontend.Numbers.{stoll}

-- `Trace`.
pub record Transfer : Type 0 where
  pub is_write : Bool
  pub addr_vec : List ℤ

pub record ReadWriteTrace : Type 0 where
  pub trace : List Transfer
  pub curr_trace_idx : ℕ

-- `addr_vec.push_back(std::stoll(token))` for the tokens: an address vector has 32-bit numbers.
unfoldable pub addr_vec_of : List String → Result (List ℤ)
addr_vec_of [] = ok []
addr_vec_of (t ∷ ts) = do a ← stoll 10 t; rest ← addr_vec_of ts; ok (to_int32 a ∷ rest)

-- `init_trace`: a line, and the loop over the lines.
unfoldable pub transfer_of : List String → Result Transfer
transfer_of (op ∷ addrs ∷ []) =
    if str_eq op "R"
    then (do v ← addr_vec_of (tokenize b',' addrs); ok (record { is_write = false; addr_vec = v }))
    else if str_eq op "W"
    then (do v ← addr_vec_of (tokenize b',' addrs); ok (record { is_write = true; addr_vec = v }))
    else err configuration_error
transfer_of _ = err configuration_error

unfoldable pub read_transfers : List String → Result (List Transfer)
read_transfers [] = ok []
read_transfers (line ∷ lines) = do
  a ← transfer_of (tokenize b' ' line)
  rest ← read_transfers lines
  ok (a ∷ rest)

unfoldable pub init_trace : List String → Result ReadWriteTrace
init_trace lines = do
  transfers ← read_transfers lines
  ok (record { trace = transfers; curr_trace_idx = 0 })

-- `{t.addr_vec, t.is_write ? (int)Type::Read : (int)Type::Write}`, the types as the source has them.
abbrev pub transfer_request : Transfer → Request
transfer_request t =
    let type = if t.is_write then read else write in
    record default_request { addr_vec = t.addr_vec; type = type; type_id = pos (type_to_int type) }

module _ {S : Type 0} (send : S → Request → Result (S × Bool)) where
  -- `tick`: whether the request was taken does not matter.
  unfoldable pub tick : S → ReadWriteTrace → Result (S × ReadWriteTrace)
  tick s t = do
    a ← or_fail (get_elem? t.trace t.curr_trace_idx) undefined
    (s', sent) ← send s (transfer_request a)
    ok (s', record t { curr_trace_idx = (t.curr_trace_idx + 1) % length t.trace })

abbrev pub is_finished : ReadWriteTrace → Bool
is_finished t = true
