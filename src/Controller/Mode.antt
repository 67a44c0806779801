-- ===== src/Controller/Mode.antt =====
-- The switch to register read/write mode (src/dram_controller/impl/AiM_dram_controller.cpp, `tick`).
use aim_simulator.Base.{
  ℕ, ◌≡◌, refl, ap, sym, ◌∙◌, Bool, true, false, [], ◌∷◌, ◌++◌, ok, if◌then◌else◌, arith,
  Bool-cases, inl, inr, not, xor, ◌&&◌, pos, ◌+ℤ◌, eqb_ℤ, minus_one, >>=-ok,
}
use aim_simulator.Isr.Table.{aim, type_eq}
use aim_simulator.Request.{Request, is_reader}
use aim_simulator.Request.Buffer.{ReqBuffer}
use aim_simulator.Controller.Device.{DramOps}
use aim_simulator.Controller.State.{Controller}
use aim_simulator.Controller.Schedule.{
  BufferId, active_id, priority_id, read_id, write_id, aim_id, set_buffer, Found,
}
use aim_simulator.Controller.Tick.{
  remove_from, progress, depart, issue_request, add_cycles, requires_reg_rw_mode, with_issue,
  with_mode, next_mode, count_command,
}

set_buffer-mode :
    (id : BufferId) (b : ReqBuffer Request) (c : Controller)
    → (set_buffer id b c).is_reg_rw_mode ≡ c.is_reg_rw_mode
set_buffer-mode active_id b c = refl
set_buffer-mode priority_id b c = refl
set_buffer-mode read_id b c = refl
set_buffer-mode write_id b c = refl
set_buffer-mode aim_id b c = refl

module _ (ops : DramOps) where
  progress-mode :
      (c : Controller) (id : BufferId) (i : ℕ) (r : Request)
      → (progress ops c id i r).is_reg_rw_mode ≡ c.is_reg_rw_mode
  unfolding progress
  progress-mode c id i r =
      elim (Bool-cases (not (type_eq r.type aim) && ops.is_opening r.command)) [
        | inl t ↦ rw t (set_buffer-mode id _ _ ∙ set_buffer-mode id _ c)
        | inr t ↦ rw t (set_buffer-mode id _ c)
      ]

  add_cycles-mode :
      (c : Controller) (r : Request) → (add_cycles c r).is_reg_rw_mode ≡ c.is_reg_rw_mode
  add_cycles-mode c r = elim (Bool-cases (type_eq r.type aim)) [
    | inl t ↦ rw t refl
    | inr t ↦ rw t refl
  ]

  pending-mode :
      (c : Controller) (reader : Bool) (r : Request)
      → (if reader
          then record c { pending_reads = c.pending_reads ++ r ∷ [] }
          else record c { pending_writes = c.pending_writes ++ r ∷ [] }).is_reg_rw_mode
        ≡ c.is_reg_rw_mode
  pending-mode c true r = refl
  pending-mode c false r = refl

  depart-mode :
      (c : Controller) (id : BufferId) (i : ℕ) (r : Request) (e : Controller)
      → depart ops c id i r ≡ ok e
      → e.is_reg_rw_mode ≡ c.is_reg_rw_mode
  unfolding depart
  depart-mode c id i r e h =
      let r' = record r { depart = pos c.clk +ℤ ops.command_latency r.command } in
      let (reader, _, h1) = >>=-ok (is_reader r') _ h in
      let c' =
        if reader
        then record c { pending_reads = c.pending_reads ++ r' ∷ [] }
        else record c { pending_writes = c.pending_writes ++ r' ∷ [] } in
      let last : remove_from id i (add_cycles c' r') ≡ e = ground arith in
      rw (← last) (set_buffer-mode id _ _ ∙ add_cycles-mode c' r' ∙ pending-mode c reader r')

  -- The mode after an issue is the one that the request needs.
  next_mode-eq : (required mode : Bool) → next_mode ops required mode ≡ required
  unfolding xor
  next_mode-eq true true = refl
  next_mode-eq true false = refl
  next_mode-eq false true = refl
  next_mode-eq false false = refl

  issued :
      (clk : ℕ) (r : Request)
      → ((with_issue ops clk r).command ≡ r.command)
        × ((with_issue ops clk r).addr_vec ≡ r.addr_vec)
  issued clk r = elim (Bool-cases (eqb_ℤ r.issue minus_one)) [
    | inl t ↦ rw t (refl, refl)
    | inr t ↦ rw t (refl, refl)
  ]

  -- What is sent: the command is the mode switch or the request's, for the request's address.
  sent :
      (clk : ℕ) (required mode : Bool) (r : Request)
      → ((with_issue ops clk (with_mode ops required mode r)).command
          ≡ (if xor required mode then ops.tmod else r.command))
        × ((with_issue ops clk (with_mode ops required mode r)).addr_vec ≡ r.addr_vec)
  sent clk required mode r = elim (Bool-cases (xor required mode)) [
    | inl t ↦ rw t (issued clk (record r { command = ops.tmod }))
    | inr t ↦ rw t (issued clk r)
  ]

  -- Issuing a request sends the device one command: the request's own if the controller is in the
  -- register read/write mode that the request needs, and TMOD, which changes the mode, otherwise.
  -- Afterwards the controller is in the mode that the request needs.
  pub issue_request-mode :
      (d d' : ops.Dram) (c e : Controller) (f : Found) (required : Bool)
      → requires_reg_rw_mode ops f.request ≡ ok required
      → issue_request ops d c f ≡ ok (d', e)
      → (e.is_reg_rw_mode ≡ required)
        × (d'
            ≡ ops.issue_command d
                (if xor required c.is_reg_rw_mode then ops.tmod else f.request.command)
                f.request.addr_vec)
  unfolding issue_request
  issue_request-mode d d' c e f required needs h =
      let h1 = rw needs at h in
      let r = with_issue ops c.clk (with_mode ops required c.is_reg_rw_mode f.request) in
      let c' = record c {
        is_reg_rw_mode = next_mode ops required c.is_reg_rw_mode;
        num_commands = count_command r.command c.num_commands;
      } in
      let to_device = sent c.clk required c.is_reg_rw_mode f.request in
      let settled = next_mode-eq required c.is_reg_rw_mode in
      elim (Bool-cases (eqb_ℤ r.command r.final_command)) [
        | inl t ↦
            let (c'', left, h2) = >>=-ok (depart ops c' f.buffer f.position r) _ (rw t at h1) in
            let last : c'' ≡ e = ground arith in
            let device : ops.issue_command d r.command r.addr_vec ≡ d' = ground arith in
            (
              rw (← last) (depart-mode c' f.buffer f.position r c'' left ∙ settled),
              sym device
                  ∙ ap (λ k. ops.issue_command d k r.addr_vec) to_device.0
                  ∙ ap (ops.issue_command d _) to_device.1,
            )
        | inr t ↦
            let h2 = rw t at h1 in
            let last : progress ops c' f.buffer f.position r ≡ e = ground arith in
            let device : ops.issue_command d r.command r.addr_vec ≡ d' = ground arith in
            (
              rw (← last) (progress-mode c' f.buffer f.position r ∙ settled),
              sym device
                  ∙ ap (λ k. ops.issue_command d k r.addr_vec) to_device.0
                  ∙ ap (ops.issue_command d _) to_device.1,
            )
      ]
