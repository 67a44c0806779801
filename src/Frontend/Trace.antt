-- ===== src/Frontend/Trace.antt =====
-- src/frontend/impl/memory_trace/aim_trace.cpp: the frontend that reads AiM host requests.
use Prim.Native.String.{String}
use text.Mathlib.Text.{◌==◌ as str_eq}
use aim_simulator.Base.{
  ℕ, ◌+◌, Bool, true, false, List, [], ◌∷◌, ℤ, pos, minus_one, ◌+ℤ◌, ◌==◌, ◌&&◌, ◌||◌, not, Result,
  ok, err, configuration_error, ◌>>=◌, if◌then◌else◌,
}
use aim_simulator.Isr.Table.{aim, isr_sync, isr_eoc, opcode_eq, type_eq}
use aim_simulator.Request.{
  Request, Callback, no_callback, dma_receive, host_callback, checkpoint_callback, core_callback,
  default_request,
}
use aim_simulator.Frontend.Tokens.{tokenize}
use aim_simulator.Frontend.Decode.{decode_tokens}

-- What `get_host_request` keeps. `lines` are the lines left in the file that a newline ends: a last
-- line without one sets the end-of-file bit when it is read.
pub record Reader : Type 0 where
  pub lines : List String
  pub curr_trace_idx : ℕ
  pub is_comma : Bool
  pub reached_eoc : Bool
  pub host_req_id : ℤ
  pub attention_checkpoints : ℕ

-- The frontend; `request` is `AiMTrace_request`.
pub record Trace : Type 0 where
  pub reader : Reader
  pub reached_calledback : Bool
  pub has_request : Bool
  pub request : Request

-- What a line is, by its tokens.
pub data Line : Type 0 where
  skipped : Line
  boundary : Line
  instruction : List String → Line

abbrev pub is_boundary : List String → Bool
is_boundary (a ∷ b ∷ []) = str_eq a "PHASE" && str_eq b "attention_end"
is_boundary _ = false

abbrev pub line_of : List String → Line
line_of [] = skipped
line_of (t ∷ ts) =
    if str_eq t "#" then (if is_boundary ts then boundary else skipped) else instruction (t ∷ ts)

abbrev pub delimiter : Reader → ℕ
delimiter t = if t.is_comma then b',' else b' '

-- The end of the attention phase becomes a barrier.
abbrev pub boundary_request : ℤ → Request
boundary_request id = record default_request {
  type_id = minus_one;
  type = aim;
  opcode = isr_sync;
  channel_mask = minus_one;
  host_req_id = id;
  callback = checkpoint_callback;
}

abbrev pub numbered : Reader → Reader
numbered t = record t { host_req_id = t.host_req_id +ℤ pos 1 }

-- Whether a request is the end of the trace.
abbrev pub is_eoc : Request → Bool
is_eoc r = type_eq r.type aim && opcode_eq r.opcode isr_eoc

-- The loop's body, with the state after the line is read, and the rest of the loop.
unfoldable pub on_line : Line → Reader → Result (Reader × Request) → Result (Reader × Request)
on_line skipped t rest = rest
on_line boundary t rest =
    if t.attention_checkpoints + 1 == 1
    then ok (
      record (numbered t) { attention_checkpoints = t.attention_checkpoints + 1 },
      boundary_request t.host_req_id,
    )
    else err configuration_error
on_line (instruction tokens) t rest = do
  r ← decode_tokens tokens (record default_request { host_req_id = t.host_req_id })
  ok (record (numbered t) { reached_eoc = t.reached_eoc || is_eoc r }, r)

-- The loop of `get_host_request`, over the lines.
unfoldable pub read_lines : Reader → List String → Result (Reader × Request)
read_lines t [] = err configuration_error
read_lines t (line ∷ rest) =
    let t' = record t { lines = rest; curr_trace_idx = t.curr_trace_idx + 1 } in
    on_line (line_of (tokenize (delimiter t) line)) t' (read_lines t' rest)

unfoldable pub get_host_request : Reader → Result (Reader × Request)
get_host_request t = if t.reached_eoc then err configuration_error else read_lines t t.lines

-- The first half of `tick`: there is a request to send.
unfoldable pub fetch : Trace → Result Trace
fetch t =
    if not t.has_request && not t.reader.reached_eoc
    then (do
      (reader', r) ← get_host_request t.reader
      ok (record t { reader = reader'; request = r; has_request = true }))
    else ok t

-- `receive`, and the callback of the checkpoint, which reports the cycle.
abbrev pub receive_by : Callback → Trace → Trace
receive_by host_callback t = record t { reached_calledback = true }
receive_by no_callback t = t
receive_by dma_receive t = t
receive_by checkpoint_callback t = t
receive_by core_callback t = t

abbrev pub receive : Request → Trace → Trace
receive r t = receive_by r.callback t

abbrev pub is_finished : Trace → Bool
is_finished t = t.reached_calledback

-- `init_trace`, for a file with these lines.
abbrev pub init_trace : Bool → List String → Trace
init_trace comma lines = record {
  reader = record {
    lines = lines;
    curr_trace_idx = 0;
    is_comma = comma;
    reached_eoc = false;
    host_req_id = pos 0;
    attention_checkpoints = 0;
  };
  reached_calledback = false;
  has_request = false;
  request = default_request;
}

module _ {S : Type 0} (send : S → Request → Result (S × Bool)) where
  -- `tick`, with `send` of the memory system; the last component lists what it took.
  unfoldable pub tick : S → Trace → Result (S × Trace × List Request)
  tick s t = do
    t' ← fetch t
    if t'.has_request
        then (do
          (s', taken) ← send s t'.request
          ok (
            s',
            if taken then record t' { has_request = false } else t',
            if taken then t'.request ∷ [] else [],
          ))
        else ok (s, t', [])
