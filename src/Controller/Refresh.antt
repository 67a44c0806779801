-- ===== src/Controller/Refresh.antt =====
-- src/dram_controller/impl/refresh/all_bank_refresh.cpp: the all-bank refresh manager.
use aim_simulator.Base.{
  ℕ, zero, suc, ◌+◌, List, [], ◌∷◌, ℤ, pos, minus_one, pos_part, ◌+ℤ◌, eqb_ℤ, set, replicate,
  if◌then◌else◌,
}
use aim_simulator.Isr.Table.{ref_all_bank}
use aim_simulator.Request.{Request, default_request}

-- `num_ranks` is `get_level_size("rank")`, which is -1 for a device without ranks; the request
-- number of "all-bank-refresh" is 2 in every device, the type `RefAllBank`.
pub record Refresh : Type 0 where
  pub clk : ℤ
  pub org_levels : ℕ
  pub num_ranks : ℤ
  pub nrefi : ℤ
  pub next_refresh_cycle : ℤ

-- `setup`.
unfoldable pub refresh_setup : ℕ → ℤ → ℤ → Refresh
refresh_setup levels ranks nrefi = record {
  clk = pos 0;
  org_levels = levels;
  num_ranks = ranks;
  nrefi = nrefi;
  next_refresh_cycle = nrefi;
}

-- The request for rank `r` of a channel.
unfoldable pub refresh_request : Refresh → ℤ → ℕ → Request
refresh_request f channel_id r = record default_request {
  addr_vec = set (set (replicate f.org_levels minus_one) 0 channel_id) 1 (pos r);
  type = ref_all_bank;
  type_id = pos 2;
}

-- The loop over the ranks, with `n` rounds left.
unfoldable pub refresh_requests : Refresh → ℤ → ℕ → ℕ → List Request
refresh_requests f channel_id zero r = []
refresh_requests f channel_id (suc n) r =
    refresh_request f channel_id r ∷ refresh_requests f channel_id n (r + 1)

-- `tick`: the new state, and the requests that it hands to `priority_send`, in order.
unfoldable pub refresh_tick : Refresh → ℤ → Refresh × List Request
refresh_tick f channel_id =
    let g = record f { clk = f.clk +ℤ pos 1 } in
    if eqb_ℤ g.clk g.next_refresh_cycle
    then (
      record g { next_refresh_cycle = g.next_refresh_cycle +ℤ g.nrefi },
      refresh_requests g channel_id (pos_part g.num_ranks) 0,
    )
    else (g, [])
