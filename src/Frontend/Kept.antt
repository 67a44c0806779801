-- ===== src/Frontend/Kept.antt =====
-- What decoding a line leaves of a request (src/frontend/impl/memory_trace/aim_trace.cpp,
-- `get_host_request`).
use Prim.Native.String.{String}
use aim_simulator.Base.{
  ℕ, ◌-◌, ◌≡◌, refl, ap, ◌∙◌, Bool, true, false, List, [], ◌∷◌, ℤ, pos, ◌&&◌, not, length, ok,
  >>=-ok, ◌==◌, Bool-cases, inl, inr, arith,
}
use aim_simulator.Isr.Table.{
  aim, type_to_int, MemAccessRegion, cfr, gpr, Opcode, isr_eoc, opcode_eq, AimIsr, is_field_legal,
  type_eq, Field, opsize, gpr_addr_0, gpr_addr_1, channel_mask, bank_index, row_addr, col_addr,
  thread_index,
}
use aim_simulator.Isr.Info.{
  convert_str_to_type, convert_str_to_mem_access_region, convert_opcode_str_to_aim_isr,
}
use aim_simulator.Request.{Request, host_callback}
use aim_simulator.Frontend.Numbers.{token_decoder}
use aim_simulator.Frontend.Decode.{
  width_of, set_field, next_token, is_field_value_legal, decode_and_set, decode_host_field,
  decode_host_fields, host_fields, with_prefix, with_eoc, decode_aim_tokens, decode_region,
  decode_rw_tokens, decode_tokens,
}
use aim_simulator.Frontend.Trace.{is_eoc}

-- The fields that decoding the operands leaves alone.
pub record Kept (r q : Request) : Type 0 where
  pub id : q.host_req_id ≡ r.host_req_id
  pub kind : q.type ≡ r.type
  pub code : q.opcode ≡ r.opcode

Kept-refl : (r : Request) → Kept r r
Kept-refl r = record { id = refl; kind = refl; code = refl }

Kept-trans : (r q p : Request) → Kept r q → Kept q p → Kept r p
Kept-trans r q p a b = record { id = b.id ∙ a.id; kind = b.kind ∙ a.kind; code = b.code ∙ a.code }

set_field-Kept : (f : Field) (v : ℤ) (r : Request) → Kept r (set_field f v r)
set_field-Kept opsize v r = record { id = refl; kind = refl; code = refl }
set_field-Kept gpr_addr_0 v r = record { id = refl; kind = refl; code = refl }
set_field-Kept gpr_addr_1 v r = record { id = refl; kind = refl; code = refl }
set_field-Kept channel_mask v r = record { id = refl; kind = refl; code = refl }
set_field-Kept bank_index v r = record { id = refl; kind = refl; code = refl }
set_field-Kept row_addr v r = record { id = refl; kind = refl; code = refl }
set_field-Kept col_addr v r = record { id = refl; kind = refl; code = refl }
set_field-Kept thread_index v r = record { id = refl; kind = refl; code = refl }

decode_and_set-Kept :
    (f : Field) (ts us : List String) (r q : Request)
    → decode_and_set f ts r ≡ ok (us, q)
    → Kept r q
unfolding decode_and_set
decode_and_set-Kept f ts us r q h =
    let (t, _, h1) = >>=-ok (next_token ts) _ h in
    let (v, _, h2) = >>=-ok (token_decoder (width_of f) t.0) _ h1 in
    let last : set_field f v r ≡ q = ground arith in rw (← last) (set_field-Kept f v r)

decode_host_field-Kept :
    (isr : AimIsr) (f : Field) (ts us : List String) (r q : Request)
    → decode_host_field isr f ts r ≡ ok (us, q)
    → Kept r q
unfolding decode_host_field
decode_host_field-Kept isr f ts us r q h =
    let (t, _, h1) = >>=-ok (next_token ts) _ h in
    let (v, _, h2) = >>=-ok (token_decoder (width_of f) t.0) _ h1 in
    elim (Bool-cases (is_field_value_legal isr f v)) [
      | inl legal ↦
          let h3 = rw legal at h2 in
          let last : set_field f v r ≡ q = ground arith in rw (← last) (set_field-Kept f v r)
      | inr bad ↦ absurd (let h3 = rw bad at h2 in ground arith)
    ]

decode_host_fields-Kept :
    (isr : AimIsr) (fs : List Field) (ts us : List String) (r q : Request)
    → decode_host_fields isr fs ts r ≡ ok (us, q)
    → Kept r q
unfolding decode_host_fields
decode_host_fields-Kept isr [] ts us r q h =
    let last : r ≡ q = ground arith in rw (← last) (Kept-refl r)
decode_host_fields-Kept isr (f ∷ fs) ts us r q h = elim (Bool-cases (is_field_legal isr f)) [
  | inl legal ↦
      let (x, e, h1) = >>=-ok (decode_host_field isr f ts r) _ (rw legal at h) in
      Kept-trans r x.1 q (decode_host_field-Kept isr f ts x.0 r x.1 e)
        (decode_host_fields-Kept isr fs x.0 us x.1 q h1)
  | inr none ↦ decode_host_fields-Kept isr fs ts us r q (rw none at h)
]

decode_region-Kept :
    (m : MemAccessRegion) (ts : List String) (r q : Request)
    → decode_region m ts r ≡ ok q
    → Kept r q
unfolding decode_region
decode_region-Kept cfr ts r q h =
    let (t, _, h1) = >>=-ok (next_token ts) _ h in
    let (a, _, h2) = >>=-ok (token_decoder 64 t.0) _ h1 in
    let (u, _, h3) = >>=-ok (next_token t.1) _ h2 in
    let (v, _, h4) = >>=-ok (token_decoder 32 u.0) _ h3 in
    let last : record r { addr = a; write_data = v } ≡ q = ground arith in
    rw (← last) (record { id = refl; kind = refl; code = refl })
decode_region-Kept gpr ts r q h =
    let (t, _, h1) = >>=-ok (next_token ts) _ h in
    let (a, _, h2) = >>=-ok (token_decoder 64 t.0) _ h1 in
    let last : record r { addr = a } ≡ q = ground arith in
    rw (← last) (record { id = refl; kind = refl; code = refl })
decode_region-Kept _ ts r q h =
    let (x, e, h1) = >>=-ok (decode_and_set channel_mask ts r) _ h in
    let (y, e', h2) = >>=-ok (decode_and_set bank_index x.0 x.1) _ h1 in
    let (z, e'', h3) = >>=-ok (decode_and_set row_addr y.0 y.1) _ h2 in
    let last : z.1 ≡ q = ground arith in
    let a = decode_and_set-Kept channel_mask ts x.0 r x.1 e in
    let b = decode_and_set-Kept bank_index x.0 y.0 x.1 y.1 e' in
    let c = decode_and_set-Kept row_addr y.0 z.0 y.1 z.1 e'' in
    rw (← last) (Kept-trans r x.1 z.1 a (Kept-trans x.1 y.1 z.1 b c))

decode_rw_tokens-Kept : (ts : List String) (r q : Request) → decode_rw_tokens ts r ≡ ok q → Kept r q
unfolding decode_rw_tokens
decode_rw_tokens-Kept ts r q h =
    let (t, _, h1) = >>=-ok (next_token ts) _ h in
    let (m, _, h2) = >>=-ok (convert_str_to_mem_access_region t.0) _ h1 in
    let k = decode_region-Kept m t.1 (record r { mem_access_region = m }) q h2 in
    record { id = k.id; kind = k.kind; code = k.code }

with_eoc-Kept :
    (o : Opcode) (r : Request)
    → r.opcode ≡ o
    → Kept r (with_eoc o r)
      × (opcode_eq (with_eoc o r).opcode isr_eoc ≡ true → (with_eoc o r).callback ≡ host_callback)
unfolding with_eoc
with_eoc-Kept o r code = elim (Bool-cases (opcode_eq o isr_eoc)) [
  | inl last ↦ rw last (record { id = refl; kind = refl; code = refl }, λ e. refl)
  | inr other ↦ rw other (
    Kept-refl r,
    λ e. absurd (let e2 = ap (λ (p : Opcode). opcode_eq p isr_eoc) code in ground arith),
  )
]

and_right : (a b : Bool) → (a && b) ≡ true → b ≡ true
and_right true b h = h
and_right false b h = absurd (ground arith)

-- What an AiM line leaves: its number and type, and the callback of the frontend at the end.
decode_aim_tokens-id :
    (n : ℕ) (ts : List String) (r q : Request)
    → decode_aim_tokens n ts r ≡ ok q
    → (q.host_req_id ≡ r.host_req_id)
      × (q.type ≡ r.type)
      × (opcode_eq q.opcode isr_eoc ≡ true → q.callback ≡ host_callback)
unfolding decode_aim_tokens
decode_aim_tokens-id n ts r q h =
    let (t, _, h1) = >>=-ok (next_token ts) _ h in
    let (isr, _, h2) = >>=-ok (convert_opcode_str_to_aim_isr (with_prefix t.0)) _ h1 in
    elim (Bool-cases (not (length isr.legal_fields == n - 2))) [
      | inl bad ↦ absurd (let h3 = rw bad at h2 in ground arith)
      | inr fine ↦
          let (x, e, h3) =
            >>=-ok (decode_host_fields isr host_fields t.1 (record r { opcode = isr.opcode })) _
              (rw fine at h2) in
          let k =
            decode_host_fields-Kept isr host_fields t.1 x.0 (record r { opcode = isr.opcode }) x.1
              e in
          let out : with_eoc isr.opcode x.1 ≡ q = ground arith in
          let c = with_eoc-Kept isr.opcode x.1 k.code in
          rw (← out) (c.0.id ∙ k.id, c.0.kind ∙ k.kind, c.1)
    ]

pub decode_tokens-id :
    (ts : List String) (r q : Request)
    → decode_tokens ts r ≡ ok q
    → (q.host_req_id ≡ r.host_req_id) × (is_eoc q ≡ true → q.callback ≡ host_callback)
unfolding decode_tokens
decode_tokens-id ts r q h =
    let (t, _, h1) = >>=-ok (next_token ts) _ h in
    let (ty, _, h2) = >>=-ok (convert_str_to_type t.0) _ h1 in
    let r' = record r { type = ty; type_id = pos (type_to_int ty) } in
    elim (Bool-cases (type_eq ty aim)) [
      | inl is_aim ↦
          let k = decode_aim_tokens-id (length ts) t.1 r' q (rw is_aim at h2) in
          (k.0, (λ e. k.2 (and_right (type_eq q.type aim) _ e)))
      | inr other ↦
          let k = decode_rw_tokens-Kept t.1 r' q (rw other at h2) in
          let no_aim : type_eq q.type aim ≡ false = ap (λ y. type_eq y aim) k.kind ∙ other in
          (k.id, (λ e. absurd (let e2 = rw no_aim at e in ground arith)))
    ]
