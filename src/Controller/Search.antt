-- ===== src/Controller/Search.antt =====
-- What scheduling finds (src/dram_controller/impl/AiM_dram_controller.cpp, `schedule_request`).
use aim_simulator.Base.{
  ◌≡◌, refl, ap, Bool, true, false, List, [], ◌∷◌, map, Option, none, some, if◌then◌else◌, arith,
  Bool-cases, inl, inr, ◌==◌,
}
use aim_simulator.Isr.Table.{is_barrier}
use aim_simulator.Request.{Request}
use aim_simulator.Request.Buffer.{size}
use aim_simulator.Controller.Device.{DramOps}
use aim_simulator.Controller.Scheduler.{is_ready, refresh_command, best_of, get_best_request}
use aim_simulator.Controller.State.{Controller}
use aim_simulator.Controller.Schedule.{
  Watermarks, BufferId, active_id, priority_id, read_id, write_id, aim_id, Found, get_buffer,
  set_write_mode, find_best, front_of, aim_front, find_general, guard_active, guarded_general,
  find_other, or_other, schedule_request,
}
use aim_simulator.Controller.Choice.{get_best_request-IsAsGood}
use aim_simulator.Controller.Frames.{
  uncommanded, SameRequests, Resched, Resched-refl, Outcome, Outcome-none, Outcome-after,
  set_buffer-Resched, some_found,
}

-- Learning their commands leaves the rest of the requests as it was.
map-refresh_command :
    (ops : DramOps) (d : ops.Dram) (rs : List Request)
    → map uncommanded (map (refresh_command ops d) rs) ≡ map uncommanded rs
map-refresh_command ops d [] = refl
map-refresh_command ops d (r ∷ rs) = ap (uncommanded r ∷◌) (map-refresh_command ops d rs)

module _ (ops : DramOps) (d : ops.Dram) where
  find_best_in :
      (c : Controller) (id : BufferId) (rs : List Request)
      → (get_buffer id c).buffer ≡ rs
      → Outcome c (find_best ops d id c)
  unfolding find_best get_best_request best_of
  find_best_in c id [] e = rw e record {
    changes = set_buffer-Resched id _ c (record { requests = rw e refl; limit = refl });
    in_place = λ f h. ground arith;
  }
  find_best_in c id (r ∷ rest) e =
      let best = get_best_request-IsAsGood ops d (get_buffer id c) r rest e in
      let same : SameRequests (get_buffer id c) (get_best_request ops d (get_buffer id c)).0 =
        record { requests = map-refresh_command ops d (get_buffer id c).buffer; limit = refl } in
      rw (best.2) (
        some_found ops c id (get_best_request ops d (get_buffer id c)).0 best.0 best.1
          (is_ready ops d best.1) (same, best.3))

  front_in :
      (c : Controller) (id : BufferId) (rs : List Request)
      → (get_buffer id c).buffer ≡ rs
      → Outcome c (front_of ops d id c (get_buffer id c) rs)
  front_in c id [] e = Outcome-none c
  front_in c id (r ∷ rest) e =
      some_found ops c id _ 0 (refresh_command ops d r) (is_ready ops d (refresh_command ops d r))
        (record { requests = rw e refl; limit = refl }, refl)

  aim_front_in :
      (c : Controller) (rs : List Request)
      → c.aim_buffer.buffer ≡ rs
      → Outcome c (aim_front ops d c rs)
  aim_front_in c [] e = Outcome-none c
  aim_front_in c (r ∷ rest) e = elim (Bool-cases (is_barrier r.opcode)) [
    | inl t ↦ rw t record {
      changes = Resched-refl c;
      in_place = λ f h.
          let e' : record { buffer = aim_id; position = 0; request = r } ≡ f = ground arith in
          rw (← e', e) refl;
    }
    | inr t ↦ rw t (front_in c aim_id (r ∷ rest) e)
  ]

  set_write_mode-Resched : (w : Watermarks) (c : Controller) → Resched c (set_write_mode w c)
  unfolding set_write_mode
  set_write_mode-Resched w c = ground arith

  find_general-Outcome : (w : Watermarks) (c : Controller) → Outcome c (find_general ops w d c)
  unfolding find_general
  find_general-Outcome w c = elim (Bool-cases (size c.aim_buffer == 0)) [
    | inl t ↦ rw t (
        Outcome-after c (set_write_mode w c) _ (set_write_mode-Resched w c) (
          find_best_in (set_write_mode w c)
            (if (set_write_mode w c).is_write_mode then write_id else read_id) _ refl))
    | inr t ↦ rw t (aim_front_in c c.aim_buffer.buffer refl)
  ]

  guard_active-some :
      (c : Controller) (o : Option Found) (f : Found) → guard_active ops c o ≡ some f → o ≡ some f
  unfolding guard_active
  guard_active-some c none f h = ground arith
  guard_active-some c (some g) f h = ground arith

  guarded :
      (c : Controller) (r : Controller × Option Found)
      → Outcome c r
      → Outcome c (r.0, guard_active ops r.0 r.1)
  guarded c r h = record {
    changes = h.changes;
    in_place = λ f e. h.in_place f (guard_active-some r.0 r.1 f e);
  }

  guarded_general-Outcome :
      (c : Controller) (r : Controller × Option Found) (t : Bool)
      → Outcome c r
      → Outcome c (guarded_general ops r t)
  guarded_general-Outcome c (e, f) true h = h
  guarded_general-Outcome c (e, f) false h = guarded c (e, f) h

  find_other-Outcome : (w : Watermarks) (c : Controller) → Outcome c (find_other ops w d c)
  unfolding find_other
  find_other-Outcome w c = elim (Bool-cases (size c.priority_buffer == 0)) [
    | inl t ↦ rw t (guarded_general-Outcome c _ _ (find_general-Outcome w c))
    | inr t ↦ rw t (guarded c _ (front_in c priority_id _ refl))
  ]

  or_other-Outcome :
      (w : Watermarks) (c : Controller) (r : Controller × Option Found)
      → Outcome c r
      → Outcome c (or_other ops w d r)
  or_other-Outcome w c (e, none) h = Outcome-after c e _ h.changes (find_other-Outcome w e)
  or_other-Outcome w c (e, some f) h = guarded c (e, some f) h

  -- `schedule_request` changes no more of the controller than the commands of buffered requests and
  -- the write mode: every other field is as it was, and each buffer holds the same requests in the
  -- same order but for their commands; a request that it finds stands at the position of the buffer
  -- that it names.
  pub schedule_request-Outcome :
      (w : Watermarks) (c : Controller) → Outcome c (schedule_request ops w d c)
  unfolding schedule_request
  schedule_request-Outcome w c = or_other-Outcome w c _ (find_best_in c active_id _ refl)
