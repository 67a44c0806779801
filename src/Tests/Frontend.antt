-- ===== src/Tests/Frontend.antt =====
-- Concrete inputs for the theorems on the frontend and on the loop of the program.
use Prim.Native.String.{String}
use aim_simulator.Base.{
  arith, ℕ, ◌+◌, ◌≡◌, refl, Bool, true, false, List, [], ◌∷◌, ◌++◌, pos, ◌+ℤ◌, ◌-ℤ◌, Result, ok,
}
use aim_simulator.Request.{Request, default_request}
use aim_simulator.Frontend.Tokens.{split, strip, keep_tokens, tokenize}
use aim_simulator.Frontend.Trace
use aim_simulator.Frontend.Trace.{
  Reader, Trace, init_trace, get_host_request, read_lines, on_line, fetch, tick,
}
use aim_simulator.Frontend.Order.{Todo, ended, reads, Unsent, tick-Unsent, tick-progress}
use aim_simulator.Frontend.Numbering.{IsSequence, Todo-IsSequence}
use aim_simulator.Frontend.Joined.{IsClean, tokenize-joined}
use aim_simulator.Isr.Info.{lookup_str, convert_str_to_type, convert_opcode_str_to_aim_isr}
use aim_simulator.Frontend.Decode.{decode_host_fields, with_eoc, decode_aim_tokens, decode_tokens}
use aim_simulator.System.State.{send}
use aim_simulator.Mask.Bits.{count_from, count_set_bit}
use aim_simulator.System.Fanout.{each_controller, issue_barrier, decode_aim, decode, deliver}
use aim_simulator.System.Tick
use aim_simulator.System.Tick.{
  drain_channel, drain_channels, finish_front, decode_front, advance, receive, call_back,
  call_backs, tick_controllers, tick_memory,
}
use aim_simulator.Machine.Loop.{Machine, tick_frontend, tick_memory_system, when_due, rounds}
use aim_simulator.Machine.Flow.{Flow, rounds-Flow}
use aim_simulator.Frontend.LoadStore.{LoadStoreTrace, is_finished, ticks, ticks-is_finished}
use aim_simulator.Tests.Device.{gddr6}
use aim_simulator.Tests.System.{value_of, eager_ops, start, sync_request}

-- A comment, a barrier, the end.
abbrev trace_lines : List String
trace_lines = "# head" ∷ "AiM SYNC" ∷ "AiM EOC" ∷ []

abbrev first_trace : Trace
first_trace = init_trace false trace_lines

abbrev read_one : Reader → Reader × Request
read_one d = value_of (get_host_request d) (d, default_request)

abbrev first : Reader × Request
first = read_one first_trace.reader

abbrev second : Reader × Request
second = read_one first.0

abbrev trace_requests : List Request
trace_requests = first.1 ∷ second.1 ∷ []

first-read : get_host_request first_trace.reader ≡ ok first
unfolding lookup_str convert_str_to_type convert_opcode_str_to_aim_isr decode_host_fields with_eoc
    decode_aim_tokens decode_tokens split strip keep_tokens tokenize on_line read_lines
    get_host_request
first-read = refl

second-read : get_host_request first.0 ≡ ok second
unfolding lookup_str convert_str_to_type convert_opcode_str_to_aim_isr decode_host_fields with_eoc
    decode_aim_tokens decode_tokens split strip keep_tokens tokenize on_line read_lines
    get_host_request
second-read = refl

first-Todo : Todo first_trace.reader trace_requests
unfolding get_host_request read_lines on_line tokenize keep_tokens split strip decode_tokens
    convert_str_to_type decode_aim_tokens convert_opcode_str_to_aim_isr decode_host_fields with_eoc
first-Todo = reads first.1 refl first-read (reads second.1 refl second-read (ended refl))

first-Unsent : Unsent first_trace trace_requests
first-Unsent = record { rest = trace_requests; ahead = refl; behind = first-Todo }

-- A memory system that counts the requests that it takes.
abbrev count_sent : ℕ → Request → Result (ℕ × Bool)
count_sent n r = ok (n + 1, true)

abbrev after_tick : ℕ × Trace × List Request
after_tick = value_of (tick count_sent 0 first_trace) (0, first_trace, [])

tick-Unsent_example :
    (left : List Request) × (trace_requests ≡ after_tick.2 ++ left) × Unsent after_tick.1 left
unfolding lookup_str convert_str_to_type convert_opcode_str_to_aim_isr decode_host_fields with_eoc
    decode_aim_tokens decode_tokens split strip keep_tokens tokenize on_line read_lines
    get_host_request fetch tick
tick-Unsent_example =
    tick-Unsent count_sent 0 after_tick.0 first_trace after_tick.1 trace_requests after_tick.2
      first-Unsent refl

tick-progress_example :
    (t' : Trace) × (tick count_sent 0 first_trace ≡ ok (1, t', first.1 ∷ []))
    × Unsent t' (second.1 ∷ [])
tick-progress_example =
    tick-progress count_sent 0 1 first_trace first.1 (second.1 ∷ []) first-Unsent refl

Todo-IsSequence_example : IsSequence (pos 0) trace_requests
Todo-IsSequence_example = Todo-IsSequence first_trace.reader trace_requests first-Todo

aim-IsClean : IsClean b' ' "AiM"
aim-IsClean = (refl, refl, (refl, refl, (refl, refl, tt)))

eoc-IsClean : IsClean b' ' "EOC"
eoc-IsClean = (refl, refl, (refl, refl, (refl, refl, tt)))

tokenize-joined_example : tokenize b' ' "AiM EOC" ≡ "AiM" ∷ "EOC" ∷ []
tokenize-joined_example =
    tokenize-joined " " ("AiM" ∷ "EOC" ∷ []) ((aim-IsClean, refl), ((eoc-IsClean, refl), tt))

abbrev machine : Machine eager_ops gddr6
machine = record {
  trace = first_trace;
  system = record (start sync_request) { request_queue = [] };
}

abbrev later_machine : Machine eager_ops gddr6 × Bool
later_machine = value_of (rounds eager_ops gddr6 1 1 1 0 machine) (machine, false)

rounds-Flow_example : Flow eager_ops gddr6 trace_requests later_machine.0
unfolding lookup_str convert_str_to_type convert_opcode_str_to_aim_isr decode_host_fields with_eoc
    decode_aim_tokens decode_tokens split strip keep_tokens tokenize on_line read_lines
    get_host_request fetch Trace.tick send count_from count_set_bit deliver each_controller
    issue_barrier decode_aim decode drain_channel drain_channels finish_front decode_front advance
    receive call_back call_backs tick_controllers tick_memory Tick.tick tick_frontend
    tick_memory_system when_due rounds ◌+ℤ◌ ◌-ℤ◌
rounds-Flow_example =
    rounds-Flow eager_ops gddr6 1 1 1 0 trace_requests machine later_machine.0 later_machine.1
      (record { unsent = trace_requests; path = ([], refl); behind = first-Unsent }) refl

abbrev load_store : LoadStoreTrace
load_store = record {
  trace =
      record { is_write = false; addr = pos 64 } ∷ record { is_write = true; addr = pos 128 } ∷ [];
  curr_trace_idx = 0;
  trace_count = 0;
}

ticks-is_finished_example :
    (s : ℕ) × (t : LoadStoreTrace) × (ticks count_sent 3 0 load_store ≡ ok (s, t))
    × (is_finished t ≡ true)
ticks-is_finished_example =
    ticks-is_finished count_sent (λ s r. (s + 1, refl)) 3 0 load_store (omega arith)
