-- ===== src/Router/Funds/Conserve.antt =====
-- What the transfers of programs/router/src/instructions/execute_cross_slab.rs keep.
use barista_dex_perc.Prelude.{ℕ, ◌+◌, ◌≡◌, arith}
use barista_dex_perc.Prelude.Int.{ℤ}
use barista_dex_perc.Prelude.Outcome.{ok}
use barista_dex_perc.Math.{fit_i128}
use barista_dex_perc.Router.Funds.{
  Accounts, fit_u64, pay_dlp, pay_user, receive, give, transfer_collateral_margin,
  return_margin_to_user, book_pnl, settle_pnl,
}

abbrev pub all_lamports : Accounts → ℕ
all_lamports s = s.user_lamports + s.dlp_lamports

-- Lamports only change hands, and neither exposures nor the position's account nor the registry change.
pub record Moves (s t : Accounts) : Type 0 where
  pub lamports : all_lamports t ≡ all_lamports s
  pub exposures : t.user.exposures ≡ s.user.exposures
  pub key : t.user_key ≡ s.user_key
  pub registry : t.registry ≡ s.registry
  pub address : t.position_at ≡ s.position_at
  pub position : t.position ≡ s.position

pub transfer-Moves :
    (s : Accounts) (n : ℕ) (t : Accounts) → transfer_collateral_margin s n ≡ ok t → Moves s t
unfolding transfer_collateral_margin pay_dlp fit_u64 give receive
transfer-Moves s n t h = ground arith

pub return-Moves :
    (s : Accounts) (n : ℕ) (t : Accounts) → return_margin_to_user s n ≡ ok t → Moves s t
unfolding return_margin_to_user pay_user fit_u64 give receive
return-Moves s n t h = ground arith

pub settle_pnl-Moves : (s : Accounts) (g : ℤ) (t : Accounts) → settle_pnl s g ≡ ok t → Moves s t
unfolding settle_pnl pay_user pay_dlp fit_u64 book_pnl fit_i128
settle_pnl-Moves s g t h = ground arith
