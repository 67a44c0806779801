-- ===== src/Controller/Issuing.antt =====
-- Issuing a command keeps the requests that the controller holds
-- (src/dram_controller/impl/AiM_dram_controller.cpp, `tick`).
use aim_simulator.Base.{
  ℕ, ◌+◌, ◌≤◌, ◌≡◌, refl, ap, Bool, true, false, [], ◌∷◌, ◌++◌, some, ok, if◌then◌else◌, set, arith,
  Bool-cases, inl, inr, not, xor, ◌&&◌, get_elem?, pos, minus_one, ◌+ℤ◌, eqb_ℤ, >>=-ok,
}
use aim_simulator.Isr.Table.{aim, type_eq}
use aim_simulator.Request.{Request, is_reader}
use aim_simulator.Request.Buffer.{size, enqueue}
use aim_simulator.Controller.Device.{DramOps}
use aim_simulator.Controller.State.{Controller}
use aim_simulator.Controller.Schedule.{BufferId, get_buffer, Found}
use aim_simulator.Controller.Tick.{
  remove_from, keep_at, progress, depart, issue_request, add_cycles, requires_reg_rw_mode,
  with_issue, with_mode, next_mode, count_command,
}
use aim_simulator.Controller.Held.{
  identity, bit, held, count-append, count-set, set_buffer-held, remove_from-held, enqueue-count,
  keep_at-places, activate-place, get_buffer-same,
}

with_issue-identity :
    (ops : DramOps) (clk : ℕ) (required mode : Bool) (r : Request)
    → identity (with_issue ops clk (with_mode ops required mode r)) ≡ identity r
with_issue-identity ops clk required mode r = elim (Bool-cases (xor required mode)) [
  | inl t ↦
      rw t (elim (Bool-cases (eqb_ℤ r.issue minus_one)) [ inl u ↦ rw u refl | inr u ↦ rw u refl ])
  | inr t ↦
      rw t (elim (Bool-cases (eqb_ℤ r.issue minus_one)) [ inl u ↦ rw u refl | inr u ↦ rw u refl ])
]

module _ (ops : DramOps) (p : Request → Bool) where
  keep_at-held :
      (id : BufferId) (i : ℕ) (r x : Request) (c : Controller)
      → get_elem? (get_buffer id c).buffer i ≡ some x
      → identity r ≡ identity x
      → held p (keep_at ops id i r c) ≡ held p c
  keep_at-held id i r x c h same = omega (
    arith,
    set_buffer-held p id (record (get_buffer id c) { buffer = set (get_buffer id c).buffer i r }) c,
    count-set p (get_buffer id c).buffer i x r h same,
  )

  progress-held :
      (c : Controller) (id : BufferId) (i : ℕ) (r x : Request)
      → get_elem? (get_buffer id c).buffer i ≡ some x
      → identity r ≡ identity x
      → size c.active_buffer ≤ c.active_buffer.max_size
      → held p (progress ops c id i r) ≡ held p c
  unfolding progress
  progress-held c id i r x h same room =
      let c' = keep_at ops id i r c in
      let kept = keep_at-held id i r x c h same in
      let (here, sized, limit) = keep_at-places ops id i r x c h in
      elim (Bool-cases (not (type_eq r.type aim) && ops.is_opening r.command)) [
        | inl t ↦
            let grown = enqueue-count p c'.active_buffer r (omega (arith, sized, limit, room)) in
            let gone =
              remove_from-held p id i (record c' { active_buffer = (enqueue c'.active_buffer r).0 })
                r (activate-place id i r r c' here) in
            rw t (omega (arith, gone, grown, kept))
        | inr t ↦ rw t kept
      ]

  add_cycles-held :
      (c : Controller) (r : Request) (id : BufferId)
      → (held p (add_cycles c r) ≡ held p c) × (get_buffer id (add_cycles c r) ≡ get_buffer id c)
  add_cycles-held c r id = elim (Bool-cases (type_eq r.type aim)) [
    | inl t ↦ rw t (refl, get_buffer-same _ _ id refl refl refl refl refl)
    | inr t ↦ rw t (refl, get_buffer-same _ _ id refl refl refl refl refl)
  ]

  pub pending-held :
      (c : Controller) (reader : Bool) (r : Request) (id : BufferId)
      → let e =
          if reader
          then record c { pending_reads = c.pending_reads ++ r ∷ [] }
          else record c { pending_writes = c.pending_writes ++ r ∷ [] } in
        (held p e ≡ held p c + bit (p (identity r))) × (get_buffer id e ≡ get_buffer id c)
  pending-held c true r id = (
    omega (arith, count-append p c.pending_reads (r ∷ [])),
    get_buffer-same _ _ id refl refl refl refl refl,
  )
  pending-held c false r id = (
    omega (arith, count-append p c.pending_writes (r ∷ [])),
    get_buffer-same _ _ id refl refl refl refl refl,
  )

  depart-held :
      (c : Controller) (id : BufferId) (i : ℕ) (r x : Request) (e : Controller)
      → depart ops c id i r ≡ ok e
      → get_elem? (get_buffer id c).buffer i ≡ some x
      → identity r ≡ identity x
      → held p e ≡ held p c
  unfolding depart
  depart-held c id i r x e h inside same =
      let r' = record r { depart = pos c.clk +ℤ ops.command_latency r.command } in
      let (reader, _, h1) = >>=-ok (is_reader r') _ h in
      let c' =
        if reader
        then record c { pending_reads = c.pending_reads ++ r' ∷ [] }
        else record c { pending_writes = c.pending_writes ++ r' ∷ [] } in
      let last : remove_from id i (add_cycles c' r') ≡ e = ground arith in
      let (more, there) = pending-held c reader r' id in
      let (kept, here) = add_cycles-held c' r' id in
      let inside' : get_elem? (get_buffer id (add_cycles c' r')).buffer i ≡ some x =
        rw (here, there) inside in
      let gone = remove_from-held p id i (add_cycles c' r') x inside' in
      let alike : bit (p (identity r')) ≡ bit (p (identity x)) = ap (λ y. bit (p y)) same in
      rw (← last) (omega (arith, gone, more, kept, alike))

  pub issue_request-held :
      (d d' : ops.Dram) (c e : Controller) (f : Found)
      → issue_request ops d c f ≡ ok (d', e)
      → get_elem? (get_buffer f.buffer c).buffer f.position ≡ some f.request
      → size c.active_buffer ≤ c.active_buffer.max_size
      → held p e ≡ held p c
  unfolding issue_request
  issue_request-held d d' c e f h inside room =
      let (required, _, h1) = >>=-ok (requires_reg_rw_mode ops f.request) _ h in
      let r = with_issue ops c.clk (with_mode ops required c.is_reg_rw_mode f.request) in
      let same = with_issue-identity ops c.clk required c.is_reg_rw_mode f.request in
      let c' = record c {
        is_reg_rw_mode = next_mode ops required c.is_reg_rw_mode;
        num_commands = count_command r.command c.num_commands;
      } in
      let there : get_buffer f.buffer c' ≡ get_buffer f.buffer c =
        get_buffer-same c' c f.buffer refl refl refl refl refl in
      let inside' : get_elem? (get_buffer f.buffer c').buffer f.position ≡ some f.request =
        rw there inside in
      elim (Bool-cases (eqb_ℤ r.command r.final_command)) [
        | inl t ↦
            let (c'', left, h2) = >>=-ok (depart ops c' f.buffer f.position r) _ (rw t at h1) in
            let last : c'' ≡ e = ground arith in
            rw (← last) (depart-held c' f.buffer f.position r f.request c'' left inside' same)
        | inr t ↦
            let h2 = rw t at h1 in
            let last : progress ops c' f.buffer f.position r ≡ e = ground arith in
            rw (← last) (progress-held c' f.buffer f.position r f.request inside' same room)
      ]
