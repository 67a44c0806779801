-- ===== src/System/Decoding.antt =====
-- Decoding leaves the queue of host requests alone (`tick` of
-- src/memory_system/impl/aim_DRAM_system.cpp).
use aim_simulator.Base.{
  ℕ, zero, suc, ◌+◌, ◌≡◌, ◌∙◌, Bool, ok, configuration_error, or_fail, >>=-ok, arith, length,
  to_int32,
}
use aim_simulator.Isr.Table.{RequestType, read, write, aim, MemAccessRegion, cfr, mem, Opcode}
use aim_simulator.Isr.Info.{convert_aim_opcode_to_aim_isr}
use aim_simulator.Request.{Request}
use aim_simulator.System.State.{ControllerOps, address_to_cfr}
use aim_simulator.System.AddrMap.{Organization, apply_addr_mapp}
use aim_simulator.System.Fanout.{
  Sys, Fan, deliver, issue_masked, each_controller, issue_barrier, issue_mem, write_cfr, decode_aim,
  decode_read, decode_write, decode,
}
use aim_simulator.System.Accounting.{deliver-Issues, issue_masked-Issues}

module _ (ops : ControllerOps) (o : Organization) where
  abbrev pub SameQueue : Sys ops o → Sys ops o → Type 0
  SameQueue s t = t.request_queue ≡ s.request_queue

  each_controller-queue :
      (host : Request) (n ch : ℕ) (f : Fan ops o) {g : Fan ops o}
      → each_controller ops o host n ch f ≡ ok g
      → SameQueue f.sys g.sys
  unfolding each_controller
  each_controller-queue host zero ch f {g} h = let e : f ≡ g = ground arith in rw (← e)
  each_controller-queue host (suc n) ch f {g} h =
      let (x, e, h1) = >>=-ok (deliver ops o _ _ ch) _ h in
      each_controller-queue host n (ch + 1) _ h1 ∙ (deliver-Issues ops o _ _ ch e).queue

  issue_masked-queue :
      (s : Sys ops o) (host : Request) {t : Sys ops o} {b : Bool}
      → issue_masked ops o s host ≡ ok (t, b)
      → SameQueue s t
  unfolding issue_masked
  issue_masked-queue s host {t} {b} h =
      let (isr, known, _) = >>=-ok (convert_aim_opcode_to_aim_isr host.opcode) _ h in
      (issue_masked-Issues ops o s host known h).queue

  issue_barrier-queue :
      (s : Sys ops o) (host : Request) {t : Sys ops o} {b : Bool}
      → issue_barrier ops o s host ≡ ok (t, b)
      → SameQueue s t
  unfolding issue_barrier
  issue_barrier-queue s host {t} {b} h =
      let (f, e, h1) = >>=-ok (each_controller ops o host (length s.controllers) 0 _) _ h in
      let last : f.sys ≡ t = ground arith in
      rw (← last) (each_controller-queue host (length s.controllers) 0 _ e)

  issue_mem-queue :
      (s : Sys ops o) (host : Request) {t : Sys ops o} {b : Bool}
      → issue_mem ops o s host ≡ ok (t, b)
      → SameQueue s t
  unfolding issue_mem
  issue_mem-queue s host {t} {b} h =
      let (req, _, h1) = >>=-ok (apply_addr_mapp o _ (to_int32 host.channel_mask)) _ h in
      let (x, e, h2) = >>=-ok (deliver ops o _ req _) _ h1 in
      let last : x.0 ≡ t = ground arith in rw (← last) (deliver-Issues ops o _ req _ e).queue

  write_cfr-queue :
      (s : Sys ops o) (host : Request) {t : Sys ops o} {b : Bool}
      → write_cfr ops o s host ≡ ok (t, b)
      → SameQueue s t
  unfolding write_cfr
  write_cfr-queue s host {t} {b} h =
      let (r, _, h1) = >>=-ok (or_fail (address_to_cfr host.addr) configuration_error) _ h in
      ground arith

  decode_aim-queue :
      (s : Sys ops o) (host : Request) (op : Opcode) {t : Sys ops o} {b : Bool}
      → decode_aim ops o s host op ≡ ok (t, b)
      → SameQueue s t
  unfolding decode_aim
  decode_aim-queue s host Opcode.isr_wr_aflut h = absurd (ground arith)
  decode_aim-queue s host Opcode.isr_ewadd h = ground arith
  decode_aim-queue s host Opcode.isr_sync h = issue_barrier-queue s host h
  decode_aim-queue s host Opcode.isr_eoc h = issue_barrier-queue s host h
  decode_aim-queue s host Opcode.min h = ground arith
  decode_aim-queue s host Opcode.max h = ground arith
  decode_aim-queue s host _ h = issue_masked-queue s host h

  decode_read-queue :
      (s : Sys ops o) (host : Request) (r : MemAccessRegion) {t : Sys ops o} {b : Bool}
      → decode_read ops o s host r ≡ ok (t, b)
      → SameQueue s t
  unfolding decode_read
  decode_read-queue s host mem h = issue_mem-queue s host h
  decode_read-queue s host _ h = ground arith

  decode_write-queue :
      (s : Sys ops o) (host : Request) (r : MemAccessRegion) {t : Sys ops o} {b : Bool}
      → decode_write ops o s host r ≡ ok (t, b)
      → SameQueue s t
  unfolding decode_write
  decode_write-queue s host mem h = issue_mem-queue s host h
  decode_write-queue s host cfr h = write_cfr-queue s host h
  decode_write-queue s host _ h = ground arith

  pub decode-queue :
      (s : Sys ops o) (host : Request) (ty : RequestType) {t : Sys ops o} {b : Bool}
      → decode ops o s host ty ≡ ok (t, b)
      → SameQueue s t
  unfolding decode
  decode-queue s host aim h = decode_aim-queue s host host.opcode h
  decode-queue s host read h = decode_read-queue s host host.mem_access_region h
  decode-queue s host write h = decode_write-queue s host host.mem_access_region h
  decode-queue s host _ h = absurd (ground arith)
