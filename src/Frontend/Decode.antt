-- ===== src/Frontend/Decode.antt =====
-- src/frontend/impl/memory_trace/aim_trace.cpp, `get_host_request`: the decoding of the tokens of a
-- line.
use Prim.Native.String.{String, ◌++◌ as append}
use text.Mathlib.Text.{starts_with}
use aim_simulator.Base.{
  ℕ, Bool, List, [], ◌∷◌, ℤ, pos, minus_one, eqb_ℤ, ◌-◌, ◌==◌, not, length, Result, ok, err,
  configuration_error, exit_error, undefined, ◌>>=◌, if◌then◌else◌,
}
use aim_simulator.Isr.Table.{
  aim, type_to_int, MemAccessRegion, cfr, gpr, Opcode, isr_eoc, opcode_eq, AimIsr, is_field_legal,
  type_eq, Field, opsize, gpr_addr_0, gpr_addr_1, channel_mask, bank_index, row_addr, col_addr,
  thread_index,
}
use aim_simulator.Isr.Info.{
  convert_str_to_type, convert_str_to_mem_access_region, convert_opcode_str_to_aim_isr,
}
use aim_simulator.Request.{Request, host_callback}
use aim_simulator.Frontend.Numbers.{token_decoder}

-- `decltype(req.name)` in bits, and the assignment to the field.
abbrev pub width_of : Field → ℕ
width_of opsize = 32
width_of gpr_addr_0 = 64
width_of gpr_addr_1 = 64
width_of channel_mask = 64
width_of bank_index = 16
width_of row_addr = 32
width_of col_addr = 32
width_of thread_index = 8

abbrev pub set_field : Field → ℤ → Request → Request
set_field opsize v r = record r { opsize = v }
set_field gpr_addr_0 v r = record r { gpr_addr_0 = v }
set_field gpr_addr_1 v r = record r { gpr_addr_1 = v }
set_field channel_mask v r = record r { channel_mask = v }
set_field bank_index v r = record r { bank_index = v }
set_field row_addr v r = record r { row_addr = v }
set_field col_addr v r = record r { col_addr = v }
set_field thread_index v r = record r { thread_index = v }

-- `tokens[token_idx++]`: the tokens from `token_idx` on; there is no token past the last one.
abbrev pub next_token : List String → Result (String × List String)
next_token [] = err undefined
next_token (t ∷ ts) = ok (t, ts)

-- `is_field_value_legal`.
abbrev pub is_field_value_legal : AimIsr → Field → ℤ → Bool
is_field_value_legal isr f v =
    if is_field_legal isr f then not (eqb_ℤ v minus_one) else eqb_ℤ v minus_one

-- `DECODE_AND_SET_FIELD`.
unfoldable pub decode_and_set : Field → List String → Request → Result (List String × Request)
decode_and_set f tokens r = do
  (t, rest) ← next_token tokens
  v ← token_decoder (width_of f) t
  ok (rest, set_field f v r)

-- `DECODE_AIM_HOST_REQ_FIELD`, with the check of the value.
unfoldable pub decode_host_field :
    AimIsr → Field → List String → Request → Result (List String × Request)
decode_host_field isr f tokens r = do
  (t, rest) ← next_token tokens
  v ← token_decoder (width_of f) t
  if is_field_value_legal isr f v then ok (rest, set_field f v r) else err exit_error

-- `DECODE_AIM_HOST_REQ_FIELD_IF_NEEDED` for the fields in order.
unfoldable pub decode_host_fields :
    AimIsr → List Field → List String → Request → Result (List String × Request)
decode_host_fields isr [] tokens r = ok (tokens, r)
decode_host_fields isr (f ∷ fs) tokens r =
    (if is_field_legal isr f then decode_host_field isr f tokens r else ok (tokens, r)) >>= λ x.
    decode_host_fields isr fs x.0 x.1

abbrev pub host_fields : List Field
host_fields =
    opsize ∷ gpr_addr_0 ∷ gpr_addr_1 ∷ channel_mask ∷ bank_index ∷ row_addr ∷ col_addr
    ∷ thread_index ∷ []

-- The name of the opcode gets its prefix if it lacks it.
abbrev pub with_prefix : String → String
with_prefix s = if starts_with s "ISR_" then s else append "ISR_" s

-- The end of the trace is called back.
unfoldable pub with_eoc : Opcode → Request → Request
with_eoc o r = if opcode_eq o isr_eoc then record r { callback = host_callback } else r

-- The branch for `Type::AIM`, from the tokens after the type; `count` is `tokens.size()`.
unfoldable pub decode_aim_tokens : ℕ → List String → Request → Result Request
decode_aim_tokens count tokens r = do
  (name, rest) ← next_token tokens
  isr ← convert_opcode_str_to_aim_isr (with_prefix name)
  if not (length isr.legal_fields == count - 2) then err configuration_error else do
    (left, r') ← decode_host_fields isr host_fields rest (record r { opcode = isr.opcode })
    ok (with_eoc isr.opcode r')

-- The branch for reads and writes, by region; a plain address has 64 bits and data 32.
unfoldable pub decode_region : MemAccessRegion → List String → Request → Result Request
decode_region cfr tokens r = do
  (t, rest) ← next_token tokens
  a ← token_decoder 64 t
  (u, left) ← next_token rest
  v ← token_decoder 32 u
  ok (record r { addr = a; write_data = v })
decode_region gpr tokens r = do
  (t, rest) ← next_token tokens
  a ← token_decoder 64 t
  ok (record r { addr = a })
decode_region _ tokens r = do
  (rest, r1) ← decode_and_set channel_mask tokens r
  (left, r2) ← decode_and_set bank_index rest r1
  (end, r3) ← decode_and_set row_addr left r2
  ok r3

unfoldable pub decode_rw_tokens : List String → Request → Result Request
decode_rw_tokens tokens r = do
  (name, rest) ← next_token tokens
  region ← convert_str_to_mem_access_region name
  decode_region region rest (record r { mem_access_region = region })

-- All tokens of a line, for a request that has its number already.
unfoldable pub decode_tokens : List String → Request → Result Request
decode_tokens tokens r = do
  (name, rest) ← next_token tokens
  ty ← convert_str_to_type name
  let r' = record r { type = ty; type_id = pos (type_to_int ty) }
  if type_eq ty aim then decode_aim_tokens (length tokens) rest r' else decode_rw_tokens rest r'
