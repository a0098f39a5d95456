-- ===== src/Router/PnlVesting/Tests.antt =====
-- Runs of programs/router/src/state/pnl_vesting.rs: a profit that vests and is cut.
use barista_dex_perc.Prelude.{◌≡◌, some, arith}
use barista_dex_perc.Prelude.Int.{pos}
use barista_dex_perc.Router.Portfolio.{fp_one}
use barista_dex_perc.Router.PnlVesting.{GlobalHaircut, default_haircut, one_minus_exp_neg, PnlState}
use barista_dex_perc.Router.PnlVesting.Curve.{one_minus_exp_neg_falls}

one_minus_exp_neg_falls_example :
    (one_minus_exp_neg 540_000 216_000 ≡ some (pos fp_one))
    × (one_minus_exp_neg 648_000 216_000 ≡ some (pos 950_200_000))
one_minus_exp_neg_falls_example = one_minus_exp_neg_falls 108_000 (omega arith) (omega arith)

-- A profit with a part of it vested, before an event that cut all profits by a tenth.
abbrev profit : PnlState
profit = record {
  pnl = pos 1_000;
  vested_pnl = pos 200;
  last_slot = 0;
  pnl_index_checkpoint = pos fp_one;
}

abbrev after_event : GlobalHaircut
after_event = record default_haircut { pnl_index = pos 900_000_000; last_event_id = 1 }
