-- ===== src/Matcher/Tests.antt =====
-- Runs of the matchers on concrete values.
use barista_dex_perc.Prelude.{true, ◌≡◌, arith}
use barista_dex_perc.Prelude.Int.{pos}
use barista_dex_perc.Prelude.Outcome.{ok}
use barista_dex_perc.Matcher.{Side, SlabHeader, new_cache, FillReceipt}
use barista_dex_perc.Matcher.Slab.{SlabState, process_commit_fill}
use barista_dex_perc.Matcher.Fills.{
  MayFill, Fills, process_commit_fill-ok, process_commit_fill-Fills,
}

abbrev header : SlabHeader
header = record {
  seqno = 7;
  program_id = 1;
  lp_owner = 2;
  router_id = 3;
  instrument = 4;
  contract_size = pos 1_000_000;
  tick = pos 1;
  lot = pos 1;
  mark_px = pos 0;
  taker_fee_bps = pos 20;
}

abbrev slab : SlabState
slab = record { header = header; quote_cache = new_cache }

may_fill : MayFill slab true 3 7 Side.sell (pos 2_000_000) (pos 50_000_000)
may_fill = ground arith

abbrev filled : SlabState × FillReceipt
filled =
    (process_commit_fill-ok slab true 3 7 Side.sell (pos 2_000_000) (pos 50_000_000) may_fill).0

fill_runs : process_commit_fill slab true 3 7 Side.sell (pos 2_000_000) (pos 50_000_000) ≡ ok filled
fill_runs =
    (process_commit_fill-ok slab true 3 7 Side.sell (pos 2_000_000) (pos 50_000_000) may_fill).1

process_commit_fill-Fills_example :
    MayFill slab true 3 7 Side.sell (pos 2_000_000) (pos 50_000_000)
    × Fills slab true 3 7 Side.sell (pos 2_000_000) (pos 50_000_000) filled
process_commit_fill-Fills_example =
    process_commit_fill-Fills slab true 3 7 Side.sell (pos 2_000_000) (pos 50_000_000) filled
      fill_runs
