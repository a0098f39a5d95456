-- ===== src/Router/Position.antt =====
-- programs/router/src/state/position_details.rs. `none` is a panic: i64, i128, u128 or u32 arithmetic
-- that leaves its range, or a division by zero. Magic, bump and padding are left out.
pub mod Margin
pub mod Average
mod Tests
use barista_dex_perc.Prelude.{
  ℕ, ◌+◌, ◌-◌, ◌*◌, ◌/◌, ◌^◌, min, Option, none, some, ltb, leb, ◌==◌, if◌then◌else◌,
}
use barista_dex_perc.Prelude.Int.{
  ℤ, pos, negsuc, pos_part, neg_part, ltb_ℤ, ◌==ℤ◌, neg_ℤ, ◌+ℤ◌, ◌-ℤ◌, ◌*ℤ◌, ◌/ℤ◌,
}
use barista_dex_perc.Prelude.Options.{◌>>=◌}
use barista_dex_perc.Math.{u128_max, i64_max, fit_i64, fit_i128, add_i128, add_u128, sub_u128}
use barista_dex_perc.Matcher.{as_i64}

pub record PositionDetails : Type 0 where
  pub portfolio : ℕ
  pub slab_index : ℕ
  pub instrument_index : ℕ
  pub avg_entry_price : ℤ
  pub total_qty : ℤ
  pub realized_pnl : ℤ
  pub total_fees : ℤ
  pub trade_count : ℕ
  pub last_update_ts : ℤ
  pub margin_held : ℕ
  pub leverage : ℕ

unfoldable pub new_position : ℕ → ℕ → ℕ → ℤ → ℤ → ℤ → ℕ → ℕ → PositionDetails
new_position portfolio slab_index instrument_index entry_price initial_qty timestamp initial_margin
      leverage =
    record {
      portfolio = portfolio;
      slab_index = slab_index;
      instrument_index = instrument_index;
      avg_entry_price = entry_price;
      total_qty = initial_qty;
      realized_pnl = pos 0;
      total_fees = pos 0;
      trade_count = 1;
      last_update_ts = timestamp;
      margin_held = initial_margin;
      leverage = leverage;
    }

-- `abs` of an i64.
unfoldable pub abs_i64 : ℤ → Option ℕ
abs_i64 x = let size = pos_part x + neg_part x in if leb size i64_max then some size else none

-- `as u128`, which wraps.
unfoldable pub as_u128 : ℤ → ℕ
as_u128 (pos n) = n
as_u128 (negsuc n) = 2 ^ 128 - 1 - n

unfoldable pub fit_u128 : ℕ → Option ℕ
fit_u128 n = if leb n u128_max then some n else none

-- `trade_count += 1`
unfoldable pub next_count : ℕ → Option ℕ
next_count n = if ltb (n + 1) (2 ^ 32) then some (n + 1) else none

-- A quotient of i128 values, rounded toward zero, whose divisor is an i64.
unfoldable pub quotient : ℤ → ℤ → Option ℤ
quotient a b = if b ==ℤ pos 0 then none else some (a /ℤ b)

-- The costs are products of an i64 and a size and their sum is an i128.
unfoldable pub add_to_position : PositionDetails → ℤ → ℤ → ℤ → ℤ → ℕ → Option PositionDetails
add_to_position p fill_price fill_qty fee timestamp additional_margin = do
  old_size ← abs_i64 p.total_qty
  fill_size ← abs_i64 fill_qty
  let total_cost = p.avg_entry_price *ℤ pos old_size +ℤ fill_price *ℤ pos fill_size
  new_qty ← fit_i64 (p.total_qty +ℤ fill_qty)
  new_size ← abs_i64 new_qty
  average ← quotient total_cost (pos new_size)
  count ← next_count p.trade_count
  some (record p {
    avg_entry_price = as_i64 average;
    total_qty = new_qty;
    total_fees = add_i128 p.total_fees fee;
    trade_count = count;
    last_update_ts = timestamp;
    margin_held = add_u128 p.margin_held additional_margin;
  })

-- The gain in lamports: of a size at a difference of prices, over the exit price, times 1,000 and the
-- leverage. The product of size and difference is an i128.
unfoldable pub closing_pnl : PositionDetails → ℤ → ℕ → Option ℤ
closing_pnl p exit_price qty_closed = do
  let price_diff = exit_price -ℤ p.avg_entry_price
  let raw =
      if ltb_ℤ (pos 0) p.total_qty
      then pos qty_closed *ℤ price_diff
      else neg_ℤ (pos qty_closed) *ℤ price_diff
  in_sol ← quotient raw exit_price
  lamports ← fit_i128 (in_sol *ℤ pos 1_000)
  fit_i128 (lamports *ℤ pos p.leverage)

unfoldable pub remaining_qty : ℤ → ℕ → ℤ
remaining_qty total_qty qty_closed =
    if ltb_ℤ (pos 0) total_qty then total_qty -ℤ pos qty_closed else total_qty +ℤ pos qty_closed

-- The margin to release, where `remaining` is the quantity after the reduction.
unfoldable pub margin_to_release : ℕ → ℤ → ℕ → Option ℕ
margin_to_release margin_held remaining qty_closed =
    let total_qty_abs =
      as_u128 (
        remaining
        +ℤ (if ltb_ℤ (pos 0) remaining then pos qty_closed else neg_ℤ (pos qty_closed))) in
    if remaining ==ℤ pos 0
    then some margin_held
    else if ltb 0 total_qty_abs
    then (do
      let proportion = qty_closed * 1_000_000 / total_qty_abs
      scaled ← fit_u128 (margin_held * proportion)
      some (scaled / 1_000_000))
    else some 0

-- The position with the realised gain, the remaining quantity and the margin to release.
unfoldable pub reduce_position :
    PositionDetails → ℤ → ℤ → ℤ → ℤ → Option (PositionDetails × ℤ × ℤ × ℕ)
reduce_position p exit_price reduce_qty fee timestamp = do
  reduce_size ← abs_i64 reduce_qty
  total_size ← abs_i64 p.total_qty
  let qty_closed = min reduce_size total_size
  pnl ← closing_pnl p exit_price qty_closed
  count ← next_count p.trade_count
  let remaining = remaining_qty p.total_qty qty_closed
  release ← margin_to_release p.margin_held remaining qty_closed
  let reduced : PositionDetails = record p {
    total_qty = remaining;
    realized_pnl = add_i128 p.realized_pnl pnl;
    total_fees = add_i128 p.total_fees fee;
    trade_count = count;
    last_update_ts = timestamp;
    margin_held = sub_u128 p.margin_held release;
  }
  some (reduced, pnl, remaining, release)
