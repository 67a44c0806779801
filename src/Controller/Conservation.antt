-- ===== src/Controller/Conservation.antt =====
-- The requests that the controller holds (src/dram_controller/impl/AiM_dram_controller.cpp, `tick`).
use aim_simulator.Base.{
  ◌+◌, ◌≤◌, ◌≡◌, refl, ap, ◌∙◌, Bool, true, List, [], ◌∷◌, ◌++◌, Option, none, some, ok, arith,
  Bool-cases, inl, inr, ◌==◌, get_elem?, pos, >>=-ok,
}
use aim_simulator.Isr.Table.{is_barrier, aim, type_eq}
use aim_simulator.Request.{Request}
use aim_simulator.Request.Buffer.{size, enqueue, enqueue_admits}
use aim_simulator.Controller.Device.{DramOps}
use aim_simulator.Controller.Refresh.{refresh_tick}
use aim_simulator.Controller.State.{Controller, translate, priority_send}
use aim_simulator.Controller.Schedule.{get_buffer, Found, Watermarks, schedule_request}
use aim_simulator.Controller.Tick.{
  finish_barrier, serve, serve_completed_reqs, send_refreshes, tick_refresh, count_cycle, tick,
  is_idle,
}
use aim_simulator.Controller.Search.{schedule_request-Outcome}
use aim_simulator.Controller.Frames.{SameRequests-size}
use aim_simulator.Controller.Held.{
  identity, bit, count, held, remove_from-held, Resched-held, enqueue-count,
}
use aim_simulator.Controller.Issuing.{pending-held, issue_request-held}

-- Translation writes the last command of a request.
translate-identity :
    (ops : DramOps) (req r : Request) → translate ops req ≡ ok r → identity r ≡ identity req
unfolding translate
translate-identity ops req r h = elim (Bool-cases (type_eq req.type aim)) [
  | inl t ↦
      let (c, _, h1) = >>=-ok (ops.aim_request_translation req.opcode) _ (rw t at h) in
      let last : record req { final_command = c } ≡ r = ground arith in rw (← last) refl
  | inr t ↦
      let (c, _, h1) = >>=-ok (ops.request_translation req.type) _ (rw t at h) in
      let last : record req { final_command = c } ≡ r = ground arith in rw (← last) refl
]

module _ (ops : DramOps) (p : Request → Bool) where
  serve-held :
      (d d' : ops.Dram) (c e : Controller) (o : Option Found)
      → serve ops d (c, o) ≡ ok (d', e)
      → ((f : Found)
          → o ≡ some f
          → get_elem? (get_buffer f.buffer c).buffer f.position ≡ some f.request)
      → size c.active_buffer ≤ c.active_buffer.max_size
      → held p e ≡ held p c
  unfolding serve finish_barrier
  serve-held d d' c e none h inside room = elim (Bool-cases (is_idle ops c)) [
    | inl t ↦
        let h' = rw t at h in
        let last : record c { num_idle_cycles = c.num_idle_cycles + 1 } ≡ e = ground arith in
        rw (← last) refl
    | inr t ↦ let h' = rw t at h in let last : c ≡ e = ground arith in rw (← last) refl
  ]
  serve-held d d' c e (some f) h inside room =
      let here = inside f refl in
      elim (Bool-cases (is_barrier f.request.opcode)) [
        | inl t ↦
            let h' = rw t at h in
            let r = record (f.request) { depart = pos c.clk } in
            let c' = record c { pending_reads = c.pending_reads ++ r ∷ [] } in
            let last : finish_barrier ops c f ≡ e = ground arith in
            let (more, there) = pending-held ops p c true r f.buffer in
            let here' : get_elem? (get_buffer f.buffer c').buffer f.position ≡ some f.request =
              rw there here in
            let gone = remove_from-held p f.buffer f.position c' f.request here' in
            rw (← last) (omega (arith, gone, more))
        | inr t ↦ issue_request-held ops p d d' c e f (rw t at h) here room
      ]

  priority_send-held :
      (c e : Controller) (req : Request) (t : Bool)
      → priority_send ops c req ≡ ok (e, t)
      → t ≡ true
      → (held p e ≡ held p c + bit (p (identity req))) × (e.active_buffer ≡ c.active_buffer)
  unfolding priority_send
  priority_send-held c e req t h sent =
      let (r, translated, h1) = >>=-ok (translate ops req) _ h in
      let last : record c { priority_buffer = (enqueue c.priority_buffer r).0 } ≡ e =
        ground arith in
      let took : (enqueue c.priority_buffer r).1 ≡ true = ground arith in
      let grown =
        enqueue-count p c.priority_buffer r ((enqueue_admits c.priority_buffer r).0 took) in
      let alike : bit (p (identity r)) ≡ bit (p (identity req)) =
        ap (λ y. bit (p y)) (translate-identity ops req r translated) in
      rw (← last) (omega (arith, grown, alike), refl)

  send_refreshes-held :
      (c e : Controller) (rs : List Request)
      → send_refreshes ops c rs ≡ ok e
      → (held p e ≡ held p c + count p rs) × (e.active_buffer ≡ c.active_buffer)
  unfolding send_refreshes
  send_refreshes-held c e [] h = let last : c ≡ e = ground arith in rw (← last) (omega arith, refl)
  send_refreshes-held c e (r ∷ rs) h =
      let (x, sent, h1) = >>=-ok (priority_send ops c r) _ h in
      elim (Bool-cases x.1) [
        | inl t ↦
            let one = priority_send-held c x.0 r x.1 sent t in
            let rest = send_refreshes-held x.0 e rs (rw t at h1) in
            (omega (arith, one.0, rest.0), rest.1 ∙ one.1)
        | inr t ↦ absurd (let h2 = rw t at h1 in ground arith)
      ]

  count_cycle-held : (d : ops.Dram) (c : Controller) → held p (count_cycle ops d c) ≡ held p c
  count_cycle-held d c = elim (Bool-cases (ops.open_rows d == 0)) [
    | inl t ↦ rw t refl
    | inr t ↦ rw t refl
  ]

  -- While the active buffer is not over its limit, a tick that raises no exception loses no request,
  -- makes none up and puts none in another's place: whatever test the requests are counted by, on
  -- all that they are but their command, their last command and the times of their first and last
  -- command, the controller holds afterwards as many that pass it as serving the completed requests
  -- left and the refresh manager's requests have.
  pub tick-held :
      (w : Watermarks) (d d' : ops.Dram) (c e : Controller) (called : List Request)
      → tick ops w d c ≡ ok (d', e, called)
      → size c.active_buffer ≤ c.active_buffer.max_size
      → held p e
        ≡ held p (serve_completed_reqs (record c { clk = c.clk + 1 })).0
          + count p (refresh_tick c.refresh c.channel_id).1
  unfolding tick tick_refresh serve_completed_reqs
  tick-held w d d' c e called h room =
      let c1 = (serve_completed_reqs (record c { clk = c.clk + 1 })).0 in
      let (c2, refreshed, h1) = >>=-ok (tick_refresh ops c1) _ h in
      let more =
        send_refreshes-held (record c1 { refresh = (refresh_tick c1.refresh c1.channel_id).0 }) c2 _
          refreshed in
      let s = schedule_request ops w d c2 in
      let found = schedule_request-Outcome ops d w c2 in
      let (x, served, h2) = >>=-ok (serve ops d s) _ h1 in
      let room' : size s.0.active_buffer ≤ s.0.active_buffer.max_size = omega (
        arith,
        SameRequests-size _ _ found.changes.active,
        found.changes.active.limit,
        ap size more.1,
        ap (λ b. b.max_size) more.1,
        room,
      ) in
      let kept = serve-held d x.0 s.0 x.1 s.1 served found.in_place room' in
      let last : count_cycle ops x.0 x.1 ≡ e = ground arith in
      rw (← last)
        (omega (arith, count_cycle-held x.0 x.1, kept, Resched-held p c2 s.0 found.changes, more.0))
