-- ===== src/System/Accounting.antt =====
-- What decoding one host request changes in the memory system (`tick` of
-- src/memory_system/impl/aim_DRAM_system.cpp), for any controllers.
use mathlib.Core.Path.{subst₂}
use aim_simulator.Base.{
  ℕ, zero, suc, ◌+◌, ◌*◌, ◌≡◌, refl, ap, sym, ◌∙◌, Bool, [], ◌∷◌, pos, ◌+ℤ◌, +ℤ_pos, +ℤ_zero, ok,
  >>=-ok, length, length-set, if◌then◌else◌, arith, ◌&&◌, not, ◌==◌, get_elem?, or_fail, undefined,
  Bool-cases, inl, inr, ◌++◌,
}
use aim_simulator.Isr.Table.{AimIsr}
use aim_simulator.Isr.Info.{convert_aim_opcode_to_aim_isr}
use aim_simulator.Mask.Bits.{count_set_bit}
use aim_simulator.Request.{Request}
use aim_simulator.System.State.{ControllerOps}
use aim_simulator.System.AddrMap.{Organization, apply_addr_mapp}
use aim_simulator.System.Fanout.{
  Sys, Fan, deliver, issue_to, each_channel, each_column, issue_masked, mask_bits, column_count,
}

module _ (ops : ControllerOps) (o : Organization) where
  -- From `s` to `t`, `ids` numbers were given out and `stalls` were added; the clock, the device,
  -- the queue of host requests and the registers are as before.
  pub record Issues (s t : Sys ops o) (ids stalls : ℕ) : Type 0 where
    pub clock : t.clk ≡ s.clk
    pub queue : t.request_queue ≡ s.request_queue
    pub registers : t.cfr_values ≡ s.cfr_values
    pub channels : length t.controllers ≡ length s.controllers
    pub waiting : length t.remaining ≡ length s.remaining
    pub numbered : t.next_aim_req_id ≡ s.next_aim_req_id +ℤ pos ids
    pub held : t.stalled ≡ s.stalled +ℤ pos stalls

  Issues-refl : (s : Sys ops o) → Issues s s 0 0
  Issues-refl s = record {
    clock = refl;
    queue = refl;
    registers = refl;
    channels = refl;
    waiting = refl;
    numbered = sym (+ℤ_zero _);
    held = sym (+ℤ_zero _);
  }

  Issues-trans :
      {s t u : Sys ops o} (j k p q : ℕ)
      → Issues s t j p
      → Issues t u k q
      → Issues s u (j + k) (p + q)
  Issues-trans {s} {t} {u} j k p q a b = record {
    clock = b.clock ∙ a.clock;
    queue = b.queue ∙ a.queue;
    registers = b.registers ∙ a.registers;
    channels = b.channels ∙ a.channels;
    waiting = b.waiting ∙ a.waiting;
    numbered = b.numbered ∙ ap (λ x. x +ℤ pos k) a.numbered ∙ +ℤ_pos _ j k;
    held = b.held ∙ ap (λ x. x +ℤ pos q) a.held ∙ +ℤ_pos _ p q;
  }

  pub deliver-Issues :
      (s : Sys ops o) (req : Request) (ch : ℕ) {t : Sys ops o} {r : Request} {b : Bool}
      → deliver ops o s req ch ≡ ok (t, r, b)
      → Issues s t 0 0
  unfolding deliver
  deliver-Issues s req ch h =
      let (c, found, h1) = >>=-ok (or_fail (get_elem? s.controllers ch) undefined) _ h in
      let (x, answered, h2) = >>=-ok (ops.send c req) _ h1 in
      elim (Bool-cases x.2) [
        | inl sent ↦
            ground
              (arith, +ℤ_zero s.next_aim_req_id, +ℤ_zero s.stalled, length-set s.controllers ch x.0)
        | inr refused ↦
            let (w, _, h3) =
              >>=-ok (or_fail (get_elem? s.remaining ch) undefined) _ (rw refused at h2) in
            ground (
              arith,
              +ℤ_zero s.next_aim_req_id,
              +ℤ_zero s.stalled,
              length-set s.controllers ch x.0,
              length-set s.remaining ch (w ++ x.1 ∷ []),
            )
      ]

  Issues-cast : {s t : Sys ops o} (j k p q : ℕ) → j ≡ k → p ≡ q → Issues s t j p → Issues s t k q
  Issues-cast {s} {t} j k p q a b = subst₂ (λ x y. Issues s t x y) a b

  -- What one request to one controller adds to `stalled_AiM_requests`.
  abbrev pub stall_each : AimIsr → ℕ
  stall_each isr = if isr.aim_dma_blocking then 1 else 0

  issue_to-Issues :
      (isr : AimIsr) (host : Request) (ch : ℕ) (f : Fan ops o) {g : Fan ops o}
      → issue_to ops o isr host ch f ≡ ok g
      → Issues f.sys g.sys 1 (stall_each isr)
  unfolding issue_to
  issue_to-Issues isr host ch f {g} h =
      let (req, _, h1) = >>=-ok (apply_addr_mapp o _ (pos ch)) _ h in
      let (x, e, h2) = >>=-ok (deliver ops o _ req ch) _ h1 in
      let d = deliver-Issues _ req ch e in
      ground (arith, d, +ℤ_pos f.sys.next_aim_req_id 1 0, +ℤ_zero f.sys.stalled)

  each_channel-Issues :
      (isr : AimIsr) (host : Request) (n m : ℕ) (f : Fan ops o) {g : Fan ops o}
      → each_channel ops o isr host n m f ≡ ok g
      → Issues f.sys g.sys n (n * stall_each isr)
  unfolding each_channel
  each_channel-Issues isr host zero m f {g} h =
      let e : f ≡ g = ground arith in
      Issues-cast 0 0 0 _ refl (omega arith) (rw (← e) (Issues-refl f.sys))
  each_channel-Issues isr host (suc n) m f {g} h =
      let (f', e, h1) = >>=-ok (issue_to ops o isr host _ f) _ h in
      Issues-cast (1 + n) (suc n) (stall_each isr + n * stall_each isr) _ (omega arith)
        (omega arith)
        (Issues-trans 1 n _ _ (issue_to-Issues isr host _ f e)
          (each_channel-Issues isr host n _ f' h1))

  each_column-Issues :
      (isr : AimIsr) (host : Request) (n i : ℕ) (f : Fan ops o) {g : Fan ops o}
      → each_column ops o isr host n i f ≡ ok g
      → Issues f.sys g.sys
          (n * count_set_bit (mask_bits host))
          (n * count_set_bit (mask_bits host) * stall_each isr)
  unfolding each_column
  each_column-Issues isr host zero i f {g} h =
      let e : f ≡ g = ground arith in
      Issues-cast 0 _ 0 _ (omega arith) (omega arith) (rw (← e) (Issues-refl f.sys))
  each_column-Issues isr host (suc n) i f {g} h =
      let k : ℕ = count_set_bit (mask_bits host) in
      let p : ℕ = stall_each isr in
      let (f', e, h1) = >>=-ok (each_channel ops o isr host k (mask_bits host) _) _ h in
      Issues-cast (k + n * k) (suc n * k) (k * p + n * k * p) _ (omega arith) (omega arith) (
        Issues-trans k (n * k) _ _ (each_channel-Issues isr host k _ _ e)
          (each_column-Issues isr host n (i + 1) f' h1))

  -- Decoding a masked instruction without an error gives out one number, and for a blocking opcode
  -- counts one stall, for each column and each bit that `CountSetBit` finds in the mask; the clock,
  -- the queue of host requests, the registers and the number of controllers stay.
  pub issue_masked-Issues :
      (s : Sys ops o) (host : Request) {isr : AimIsr} {t : Sys ops o} {sent : Bool}
      → convert_aim_opcode_to_aim_isr host.opcode ≡ ok isr
      → issue_masked ops o s host ≡ ok (t, sent)
      → Issues s t
          (column_count host * count_set_bit (mask_bits host))
          (column_count host * count_set_bit (mask_bits host) * stall_each isr)
  unfolding issue_masked
  issue_masked-Issues s host {isr} {t} {sent} known h =
      let wrong : Bool = isr.channel_count_eq_one && not (count_set_bit (mask_bits host) == 1) in
      let h1 = rw (known, issue_masked) at h in
      elim (Bool-cases wrong) [
        | inl bad ↦ absurd (let h2 = rw bad at h1 in ground arith)
        | inr fine ↦
            let (f, e, h2) =
              >>=-ok (each_column ops o isr host (column_count host) 0 _) _ (rw fine at h1) in
            let last : f.sys ≡ t = ground arith in
            rw (← last) (each_column-Issues isr host (column_count host) 0 _ e)
      ]
