-- ===== src/Matcher/PoolTests.antt =====
-- Runs of a pool on concrete values.
use barista_dex_perc.Prelude.{true, List, ◌≡◌, ◌<◌, ◌+◌, refl, arith, [], ◌∷◌}
use barista_dex_perc.Prelude.Int.{pos, ◌+ℤ◌, ◌-ℤ◌, ◌*ℤ◌, ◌/ℤ◌}
use barista_dex_perc.Prelude.Outcome.{ok}
use barista_dex_perc.Math.{fit_i64, fit_i128}
use barista_dex_perc.Amm.Quote.{
  fit_quote, charge_fee, curve_buy, quote_buy, curve_sell, quote_sell, QuoteResult,
}
use barista_dex_perc.Matcher.{
  Side, new_cache, FillReceipt, padded, update_cache, as_i64, signed_64, increment_seqno,
  write_receipt,
}
use barista_dex_perc.Matcher.Pool.{
  AmmState, spot_price, pool_quote, sampled, sample_level, sample_levels, sample_cache,
  synthesize_quote_cache, map_amm_error, beyond_limit, check_order, with_reserves, fill_receipt,
  process_commit_fill,
}
use barista_dex_perc.Matcher.PoolFills.{
  Filled, process_commit_fill-Filled, process_commit_fill_lags,
}
use barista_dex_perc.Matcher.PoolHistory.{FillRequest, run, IsLiquid, run-IsLiquid}

-- 1,000 base and 60,000 quote at a fee of 5 bps.
abbrev pool : AmmState
pool = record {
  header = record {
    seqno = 7;
    program_id = 1;
    lp_owner = 2;
    router_id = 3;
    instrument = 4;
    contract_size = pos 1_000_000;
    tick = pos 1;
    lot = pos 1;
    mark_px = pos 0;
    taker_fee_bps = pos 20;
  };
  quote_cache = new_cache;
  pool = record {
    x_reserve = pos 1_000;
    y_reserve = pos 60_000;
    fee_bps = pos 5;
    min_liquidity = pos 10;
  };
}

-- What a sale of 100 at no less than 50 leaves.
abbrev filled : AmmState × FillReceipt
filled = (
  record {
    header = record pool.header { seqno = 8 };
    quote_cache = record {
      seqno_snapshot = 7;
      best_bids =
          record { px = pos 44_400_000; avail_qty = pos 10 }
          ∷ record { px = pos 46_476_190; avail_qty = pos 21 }
          ∷ record { px = pos 46_518_518; avail_qty = pos 54 }
          ∷ record { px = pos 44_825_688; avail_qty = pos 109 }
          ∷ [];
      best_asks =
          record { px = pos 50_100_000; avail_qty = pos 10 }
          ∷ record { px = pos 50_619_047; avail_qty = pos 21 }
          ∷ record { px = pos 52_259_259; avail_qty = pos 54 }
          ∷ record { px = pos 55_165_137; avail_qty = pos 109 }
          ∷ [];
    };
    pool = record pool.pool { x_reserve = pos 1_099; y_reserve = pos 54_595 };
  },
  record {
    used = 1;
    seqno_committed = 7;
    filled_qty = pos 100;
    vwap_px = pos 54_050_000;
    notional = pos 5_405;
    fee = pos 2;
    pnl_delta = pos 0;
  },
)

pool_fills : process_commit_fill pool true 3 true Side.sell (pos 100) (pos 50_000_000) ≡ ok filled
unfolding process_commit_fill spot_price pool_quote sampled sample_level sample_levels sample_cache
    synthesize_quote_cache map_amm_error beyond_limit check_order with_reserves fill_receipt padded
    update_cache as_i64 signed_64 increment_seqno write_receipt fit_i64 fit_i128 ◌+ℤ◌ ◌-ℤ◌ ◌*ℤ◌ ◌/ℤ◌
    fit_quote charge_fee curve_buy quote_buy curve_sell quote_sell
pool_fills = refl

cache_left :
    synthesize_quote_cache (record filled.0 { header = pool.header }) ≡ ok filled.0.quote_cache
unfolding process_commit_fill spot_price pool_quote sampled sample_level sample_levels sample_cache
    synthesize_quote_cache map_amm_error beyond_limit check_order with_reserves fill_receipt padded
    update_cache as_i64 signed_64 increment_seqno write_receipt fit_i64 fit_i128 ◌+ℤ◌ ◌-ℤ◌ ◌*ℤ◌ ◌/ℤ◌
    fit_quote charge_fee curve_buy quote_buy curve_sell quote_sell
cache_left = refl

process_commit_fill-Filled_example :
    (true ≡ true)
    × (true ≡ true)
    × ((q : QuoteResult) × Filled pool 3 Side.sell (pos 100) (pos 50_000_000) q filled)
process_commit_fill-Filled_example =
    process_commit_fill-Filled pool 3 Side.sell (pos 100) (pos 50_000_000) true true filled
      pool_fills

process_commit_fill_lags_example : (7 < 8) × (7 + 1 ≡ 8) × (pos 100 ≡ pos 100)
process_commit_fill_lags_example =
    process_commit_fill_lags pool 3 Side.sell (pos 100) (pos 50_000_000) true true filled
      (ground arith) pool_fills

-- The sale, a purchase whose limit is too low, and one that fits.
abbrev requests : List FillRequest
requests =
    record {
      is_signer = true;
      router = 3;
      receipt_fits = true;
      side = Side.sell;
      qty = pos 100;
      limit_px = pos 50_000_000;
    }
    ∷ record {
      is_signer = true;
      router = 3;
      receipt_fits = true;
      side = Side.buy;
      qty = pos 100;
      limit_px = pos 1;
    }
    ∷ record {
      is_signer = true;
      router = 3;
      receipt_fits = true;
      side = Side.buy;
      qty = pos 100;
      limit_px = pos 90_000_000;
    }
    ∷ []

pool_IsLiquid : IsLiquid pool.pool
unfolding ◌+ℤ◌
pool_IsLiquid = ground arith

run-IsLiquid_example : IsLiquid (run pool requests).pool
run-IsLiquid_example = run-IsLiquid pool requests pool_IsLiquid
