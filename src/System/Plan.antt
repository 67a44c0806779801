-- ===== src/System/Plan.antt =====
-- The nested loops over columns and channel mask against a plain list of columns and channels
-- (`tick` of src/memory_system/impl/aim_DRAM_system.cpp).
use mathlib.Core.Path.{fun_ext}
use aim_simulator.Base.{
  ℕ, zero, suc, ◌+◌, ◌^◌, ◌<◌, ◌≡◌, refl, ap, ◌∙◌, Bool, false, List, [], ◌∷◌, ℤ, pos, ◌+ℤ◌, Result,
  ok, ◌>>=◌, ◌&&◌, not, ◌==◌,
}
use aim_simulator.Isr.Table.{AimIsr}
use aim_simulator.Isr.Info.{convert_aim_opcode_to_aim_isr}
use aim_simulator.Mask.Bits.{count_set_bit, find_first_channel_index, visits, channels}
use aim_simulator.Mask.Channels.{visits-channels}
use aim_simulator.Request.{Request}
use aim_simulator.System.State.{ControllerOps}
use aim_simulator.System.AddrMap.{Organization}
use aim_simulator.System.Fanout.{
  Sys, Fan, issue_to, each_channel, each_column, issue_masked, mask_bits, column_count,
  first_column, prepare,
}

-- The columns of `n` rounds from counter `i`.
pub columns_from : Request → ℕ → ℕ → List ℤ
columns_from host zero i = []
columns_from host (suc n) i = (first_column host +ℤ pos i) ∷ columns_from host n (i + 1)

-- The columns that an instruction touches.
pub columns : Request → List ℤ
columns host = columns_from host (column_count host) 0

module _ (ops : ControllerOps) (o : Organization) (isr : AimIsr) (host : Request) where
  -- One request to each channel of a list, in order.
  pub issue_all : List ℕ → Fan ops o → Result (Fan ops o)
  issue_all [] f = ok f
  issue_all (ch ∷ chs) f = do f' ← issue_to ops o isr host ch f; issue_all chs f'

  -- For each column of a list, one request to each channel.
  pub issue_columns : List ℕ → List ℤ → Fan ops o → Result (Fan ops o)
  issue_columns chs [] f = ok f
  issue_columns chs (col ∷ cols) f = do
    f' ← issue_all chs (record f { req = record (f.req) { col_addr = col } })
    issue_columns chs cols f'

  each_channel-visits :
      (n m : ℕ) (f : Fan ops o) → each_channel ops o isr host n m f ≡ issue_all (visits n m).0 f
  unfolding each_channel issue_all visits
  each_channel-visits zero m f = refl
  each_channel-visits (suc n) m f =
      let r = find_first_channel_index m in
      ap (λ k. issue_to ops o isr host r.0 f >>= k) (fun_ext (each_channel-visits n r.1))

  each_column-columns :
      (n i : ℕ) (f : Fan ops o)
      → mask_bits host < 2 ^ 32
      → each_column ops o isr host n i f
        ≡ issue_columns (channels (mask_bits host)) (columns_from host n i) f
  unfolding each_column issue_columns columns_from
  each_column-columns zero i f h = refl
  each_column-columns (suc n) i f h =
      let m = mask_bits host in
      let g = record f { req = record (f.req) { col_addr = first_column host +ℤ pos i } } in
      let here : each_channel ops o isr host (count_set_bit m) m g ≡ issue_all (channels m) g =
        each_channel-visits (count_set_bit m) m g
        ∙ ap (λ (v : List ℕ × ℕ). issue_all v.0 g) (visits-channels m h) in
      ap (λ k. each_channel ops o isr host (count_set_bit m) m g >>= k)
        (fun_ext (λ f'. each_column-columns n (i + 1) f' h))
      ∙ ap (λ r. r >>= issue_columns (channels m) (columns_from host n (i + 1))) here

  -- A masked instruction whose mask has 32 bits, and one bit where the opcode wants one, sends one
  -- request to each channel that the mask selects, for each of its columns in ascending order, and
  -- reports whether all were taken.
  pub issue_masked-columns :
      (s : Sys ops o)
      → convert_aim_opcode_to_aim_isr host.opcode ≡ ok isr
      → mask_bits host < 2 ^ 32
      → (isr.channel_count_eq_one && not (count_set_bit (mask_bits host) == 1)) ≡ false
      → issue_masked ops o s host ≡ (
          issue_columns
            (channels (mask_bits host))
            (columns host)
            (record { sys = s; req = prepare s.cfr_values isr host; all_sent = Bool.true })
          >>= λ f. ok (f.sys, f.all_sent))
  unfolding issue_masked columns
  issue_masked-columns s known h fine =
      rw (known, fine, each_column-columns (column_count host) 0 _ h)
