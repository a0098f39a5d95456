-- ===== src/Router/SlabVenue.antt =====
-- The slab of programs/slab as the venue of a trade: what process_execute_cross_slab of
-- programs/router/src/instructions/execute_cross_slab.rs sends it, and how programs/slab/src/entrypoint.rs reads it.
pub mod Trades
mod Tests
use barista_dex_perc.Prelude.{ℕ, Bool, Option, none, some, ◌==◌, if◌then◌else◌}
use barista_dex_perc.Prelude.Int.{ℤ}
use barista_dex_perc.Prelude.Outcome.{Outcome, ok, ◌>>=◌, ok_or}
use barista_dex_perc.Matcher.{Side, PercolatorError, FillReceipt}
use barista_dex_perc.Matcher.Slab.{SlabState, process_commit_fill}

unfoldable pub side_of : ℕ → Option Side
side_of byte = if byte == 0 then some Side.buy else if byte == 1 then some Side.sell else none

-- The receipt of a fill at the sequence number that the router has read from the slab.
unfoldable pub commit_fill :
    SlabState → Bool → ℕ → ℕ → ℕ → ℤ → ℤ → Outcome PercolatorError FillReceipt
commit_fill slab receipt_fits router_authority slab_id side qty execution_price = do
  known ← ok_or (side_of side) PercolatorError.invalid_side
  filled ←
      process_commit_fill slab receipt_fits router_authority slab.header.seqno known qty
        execution_price
  ok filled.1
