-- ===== src/Matcher/PoolHistory.antt =====
-- A pool of programs/amm over a history of requests for fills (instructions.rs).
use barista_dex_perc.Prelude.{ℕ, ◌≡◌, refl, Bool, List, [], ◌∷◌, arith}
use barista_dex_perc.Prelude.Int.{ℤ, pos, ◌≤ℤ◌, ◌+ℤ◌, sign_cases, +ℤ_parts}
use barista_dex_perc.Prelude.Outcome.{Outcome, ok, err, abort}
use barista_dex_perc.Amm.Quote.{QuoteResult}
use barista_dex_perc.Amm.Buy.{quote_buy-curve}
use barista_dex_perc.Amm.Sell.{quote_sell-curve}
use barista_dex_perc.Matcher.{Side, PercolatorError, FillReceipt}
use barista_dex_perc.Matcher.Pool.{AmmPool, AmmState, pool_quote, process_commit_fill}
use barista_dex_perc.Matcher.PoolFills.{process_commit_fill-Filled}

pub record FillRequest : Type 0 where
  pub is_signer : Bool
  pub router : ℕ
  pub receipt_fits : Bool
  pub side : Side
  pub qty : ℤ
  pub limit_px : ℤ

-- A transaction that fails or panics leaves the pool as it was.
unfoldable pub settled : AmmState → Outcome PercolatorError (AmmState × FillReceipt) → AmmState
settled s (ok out) = out.0
settled s (err e) = s
settled s abort = s

unfoldable pub request : AmmState → FillRequest → AmmState
request s r =
    settled s (process_commit_fill s r.is_signer r.router r.receipt_fits r.side r.qty r.limit_px)

unfoldable pub run : AmmState → List FillRequest → AmmState
run s [] = s
run s (r ∷ rs) = run (request s r) rs

-- Both reserves are above a floor that is not negative.
pub record IsLiquid (p : AmmPool) : Type 0 where
  pub fee_nonneg : pos 0 ≤ℤ p.fee_bps
  pub floor_nonneg : pos 0 ≤ℤ p.min_liquidity
  pub base_left : pos 1 +ℤ p.min_liquidity ≤ℤ p.x_reserve
  pub quote_left : pos 1 +ℤ p.min_liquidity ≤ℤ p.y_reserve

-- A quote on a liquid pool leaves both reserves above the floor.
pool_quote-floors :
    (p : AmmPool) (side : Side) (qty : ℤ) (q : QuoteResult)
    → IsLiquid p
    → pool_quote p side qty ≡ ok q
    → (pos 1 +ℤ p.min_liquidity ≤ℤ q.new_x) × (pos 1 +ℤ p.min_liquidity ≤ℤ q.new_y)
unfolding pool_quote
pool_quote-floors p Side.buy qty q l h =
    let c =
      quote_buy-curve p.x_reserve p.y_reserve p.fee_bps qty p.min_liquidity q l.fee_nonneg h in
    (
      c.0,
      omega (
        arith,
        c,
        l.quote_left,
        l.floor_nonneg,
        +ℤ_parts (pos 1) p.min_liquidity,
        sign_cases q.new_y,
        sign_cases p.y_reserve,
      ),
    )
pool_quote-floors p Side.sell qty q l h =
    let c =
      quote_sell-curve p.x_reserve p.y_reserve p.fee_bps qty p.min_liquidity q l.fee_nonneg h in
    (
      omega (
        arith,
        c,
        l.base_left,
        l.floor_nonneg,
        +ℤ_parts (pos 1) p.min_liquidity,
        sign_cases q.new_x,
        sign_cases p.x_reserve,
      ),
      c.0,
    )

settled-IsLiquid :
    (s : AmmState) (r : FillRequest) (o : Outcome PercolatorError (AmmState × FillReceipt))
    → IsLiquid s.pool
    → process_commit_fill s r.is_signer r.router r.receipt_fits r.side r.qty r.limit_px ≡ o
    → IsLiquid (settled s o).pool
unfolding settled
settled-IsLiquid s r abort l h = l
settled-IsLiquid s r (err e) l h = l
settled-IsLiquid s r (ok out) l h =
    let (signer, fits, (q, f)) =
      process_commit_fill-Filled s r.router r.side r.qty r.limit_px r.is_signer r.receipt_fits out
        h in
    let (x, y) = pool_quote-floors s.pool r.side r.qty q l f.quoted in
    record {
      fee_nonneg = rw f.fee_kept l.fee_nonneg;
      floor_nonneg = rw f.floor_kept l.floor_nonneg;
      base_left = rw (f.floor_kept, f.new_x) x;
      quote_left = rw (f.floor_kept, f.new_y) y;
    }

-- A liquid pool stays liquid over every history of requests, failed ones included: no fill takes
-- either reserve down to the liquidity floor, and fee and floor stay not negative.
pub run-IsLiquid :
    (s : AmmState) (rs : List FillRequest) → IsLiquid s.pool → IsLiquid (run s rs).pool
unfolding run request
run-IsLiquid s [] l = l
run-IsLiquid s (r ∷ rs) l = run-IsLiquid (request s r) rs (settled-IsLiquid s r _ l refl)
