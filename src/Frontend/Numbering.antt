-- ===== src/Frontend/Numbering.antt =====
-- The numbers of the host requests (src/frontend/impl/memory_trace/aim_trace.cpp,
-- `get_host_request`).
use Prim.Native.String.{String}
use mathlib.Core.Path.{subst}
use aim_simulator.Base.{
  ◌+◌, ◌≡◌, refl, ap, ◌∙◌, Bool, true, false, List, [], ◌∷◌, ℤ, pos, ◌+ℤ◌, ◌||◌, Result, ok, >>=-ok,
  ◌==◌, Bool-cases, inl, inr, arith,
}
use aim_simulator.Request.{Request, default_request, host_callback}
use aim_simulator.Frontend.Tokens.{tokenize}
use aim_simulator.Frontend.Decode.{decode_tokens}
use aim_simulator.Frontend.Trace.{
  Reader, Line, skipped, boundary, instruction, line_of, delimiter, numbered, is_eoc,
  boundary_request, on_line, read_lines, get_host_request,
}
use aim_simulator.Frontend.Order.{Todo, ended, reads}
use aim_simulator.Frontend.Kept.{decode_tokens-id}

-- The requests are numbered from `k` on, only the last one may be the end of the trace, and that
-- one is called back.
abbrev pub IsSequence : ℤ → List Request → Type 0
IsSequence k [] = Unit
IsSequence k (r ∷ rs) =
    (r.host_req_id ≡ k)
    × (is_eoc r ≡ true → (rs ≡ []) × (r.callback ≡ host_callback))
    × IsSequence (k +ℤ pos 1) rs

-- One request read.
pub record IsRead (d d' : Reader) (r : Request) : Type 0 where
  pub id : r.host_req_id ≡ d.host_req_id
  pub next_id : d'.host_req_id ≡ d.host_req_id +ℤ pos 1
  pub eoc : d'.reached_eoc ≡ (d.reached_eoc || is_eoc r)
  pub called_back : is_eoc r ≡ true → r.callback ≡ host_callback

IsRead-line :
    (d e d' : Reader) (r : Request)
    → e.host_req_id ≡ d.host_req_id
    → e.reached_eoc ≡ d.reached_eoc
    → IsRead e d' r
    → IsRead d d' r
IsRead-line d e d' r p q h = record {
  id = h.id ∙ p;
  next_id = h.next_id ∙ ap (λ k. k +ℤ pos 1) p;
  eoc = h.eoc ∙ ap (λ b. b || is_eoc r) q;
  called_back = h.called_back;
}

or_true : (b : Bool) → (b || true) ≡ true
or_true true = refl
or_true false = refl

or_false : (b : Bool) → b ≡ (b || false)
or_false true = refl
or_false false = refl

on_line-IsRead :
    (l : Line) (d d' : Reader) (more : Result (Reader × Request)) (r : Request)
    → (more ≡ ok (d', r) → IsRead d d' r)
    → on_line l d more ≡ ok (d', r)
    → IsRead d d' r
unfolding on_line
on_line-IsRead skipped d d' more r rest h = rest h
on_line-IsRead boundary d d' more r rest h = elim (Bool-cases (d.attention_checkpoints + 1 == 1)) [
  | inl first ↦
      let h1 = rw first at h in
      let here : boundary_request d.host_req_id ≡ r = ground arith in
      let after : record (numbered d) { attention_checkpoints = d.attention_checkpoints + 1 } ≡ d' =
        ground arith in
      rw (← here, ← after)
        (record {
          id = refl;
          next_id = refl;
          eoc = or_false d.reached_eoc;
          called_back = λ e. absurd (ground arith);
        })
  | inr again ↦ absurd (let h1 = rw again at h in ground arith)
]
on_line-IsRead (instruction ts) d d' more r rest h =
    let start = record default_request { host_req_id = d.host_req_id } in
    let (q, e, h1) = >>=-ok (decode_tokens ts start) _ h in
    let k = decode_tokens-id ts start q e in
    let here : q ≡ r = ground arith in
    let after : record (numbered d) { reached_eoc = d.reached_eoc || is_eoc q } ≡ d' =
      ground arith in
    rw (← after, ← here) (record { id = k.0; next_id = refl; eoc = refl; called_back = k.1 })

read_lines-IsRead :
    (d d' : Reader) (lines : List String) (r : Request)
    → read_lines d lines ≡ ok (d', r)
    → IsRead d d' r
unfolding read_lines
read_lines-IsRead d d' [] r h = absurd (ground arith)
read_lines-IsRead d d' (line ∷ rest) r h =
    let e = record d { lines = rest; curr_trace_idx = d.curr_trace_idx + 1 } in
    IsRead-line d e d' r refl refl (
      on_line-IsRead (line_of (tokenize (delimiter d) line)) e d' (read_lines e rest) r
        (read_lines-IsRead e d' rest r) h)

get_host_request-IsRead :
    (d d' : Reader) (r : Request) → get_host_request d ≡ ok (d', r) → IsRead d d' r
unfolding get_host_request
get_host_request-IsRead d d' r h = elim (Bool-cases d.reached_eoc) [
  | inl over ↦ absurd (let h1 = rw over at h in ground arith)
  | inr on ↦ read_lines-IsRead d d' d.lines r (simp on at h)
]

Todo-ended : (d : Reader) (rs : List Request) → d.reached_eoc ≡ true → Todo d rs → rs ≡ []
Todo-ended d rs over (ended e) = refl
Todo-ended d rs over (reads r e got more) = absurd (ground arith)

-- The requests of a trace carry consecutive numbers. None follows the end of the trace, which is
-- the one that the frontend waits to be called back for.
pub Todo-IsSequence : (d : Reader) (rs : List Request) → Todo d rs → IsSequence d.host_req_id rs
Todo-IsSequence d rs (ended e) = tt
Todo-IsSequence d all (reads {d'} r {rs} e got more) =
    let k = get_host_request-IsRead d d' r got in
    (
      k.id,
      λ last. (Todo-ended d' rs (k.eoc ∙ rw last (or_true d.reached_eoc)) more, k.called_back last),
      subst (λ i. IsSequence i rs) k.next_id (Todo-IsSequence d' rs more),
    )
