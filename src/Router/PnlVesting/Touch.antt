-- ===== src/Router/PnlVesting/Touch.antt =====
-- A touch of a user in programs/router/src/state/pnl_vesting.rs.
use barista_dex_perc.Prelude.{ℕ, ◌*◌, ◌/◌, min, max, ◌≡◌, ◌⊎◌}
use barista_dex_perc.Prelude.Int.{ℤ, pos, ◌≤ℤ◌}
use barista_dex_perc.Math.{i128_max}
use barista_dex_perc.Router.PnlVesting.{PnlState}

-- The PnL at an index, from what it was at the checkpoint: left as it is if it is no profit or is at the
-- index already, and otherwise multiplied by the index, with a cut to an i128, and divided by the
-- checkpoint.
abbrev pub Rescaled : PnlState → ℤ → ℤ → Type 0
Rescaled s index pnl =
    (((s.pnl ≤ℤ pos 0) ⊎ (s.pnl_index_checkpoint ≡ index)) × (pnl ≡ s.pnl))
    ⊎ ((p : ℕ) × (i : ℕ) × (c : ℕ) × (s.pnl ≡ pos p)
        × (index ≡ pos i)
        × (s.pnl_index_checkpoint ≡ pos c)
        × (pnl ≡ pos (min (p * i) i128_max / max c 1)))

-- What catching up with an index does to a user.
pub record AtIndex (s : PnlState) (index : ℤ) (s' : PnlState) : Type 0 where
  pub checkpoint : s'.pnl_index_checkpoint ≡ index
  pub no_gain : s'.pnl ≤ℤ s.pnl
  pub rescaled : Rescaled s index s'.pnl

-- What a touch does to a user at the index that it catches up with.
pub record Caught (s : PnlState) (index : ℤ) (s' : PnlState) : Type 0 where
  pub at_index : AtIndex s index s'
  pub vested_within : s'.vested_pnl ≤ℤ s'.pnl
