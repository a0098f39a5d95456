-- ===== src/Safety/Step.antt =====
-- The transitions as the steps of one machine, with the guards of every operation in one place.
use barista_dex_perc.Prelude.{
  Bool, true, Option, none, some, get_elem?, if◌then◌else◌, ℕ, ◌≡◌, refl, false, List, [], ◌∷◌,
  arith,
}
use barista_dex_perc.Prelude.Int.{ℤ}
use barista_dex_perc.Safety.State.{Account, State}
use barista_dex_perc.Safety.Transitions.{
  on_user, deposit, trade_settle, socialize_losses, loss_event, withdraw_principal, withdraw_pnl,
  tick_warmup, matcher_noise, liquidate_account, liquidate_one, liquidate_one_unauthorized,
}

pub data Op : Type 0 where
  deposits withdraws_principal : ℕ → ℕ → Op
  settles : ℕ → ℤ → Op
  loses socializes ticks liquidates : ℕ → Op
  withdraws_pnl : ℕ → ℕ → ℕ → Op
  noise liquidates_one liquidates_unauthorized : Op

unfoldable pub step : State → Op → State
step s (Op.deposits uid amount) = deposit s uid amount
step s (Op.withdraws_principal uid amount) = withdraw_principal s uid amount
step s (Op.settles uid realized) = trade_settle s uid realized
step s (Op.loses deficit) = loss_event s deficit
step s (Op.socializes deficit) = socialize_losses s deficit
step s (Op.ticks steps) = tick_warmup s steps
step s (Op.liquidates uid) = liquidate_account s uid
step s (Op.withdraws_pnl uid amount now) = withdraw_pnl s uid amount now
step s Op.noise = matcher_noise s
step s Op.liquidates_one = liquidate_one s
step s Op.liquidates_unauthorized = liquidate_one_unauthorized s

unfoldable pub run : State → List Op → State
run s [] = s
run s (op ∷ ops) = run (step s op) ops

guarded {ℓ} :
    (P : State → Type ℓ) (s : State) (b : Bool) (o : Option Account) (k : Account → State)
    → P s
    → ((u : Account) → o ≡ some u → P (k u))
    → P (if b then (elim o [ none ↦ s | some u ↦ k u ]) else s)
guarded P s true none k h hk = h
guarded P s true (some u) k h hk = hk u refl
guarded P s false o k h hk = h

-- What holds of the state and of every write at the user holds after an operation on the user.
pub on_user_cases {ℓ} :
    (P : State → Type ℓ) (s : State) (uid : ℕ) (k : Account → State)
    → P s
    → ((u : Account) → get_elem? s.users uid ≡ some u → P (k u))
    → P (on_user s uid k)
on_user_cases P s uid k = guarded P s s.authorized_router (get_elem? s.users uid) k

pub unauthorized-step : (s : State) (op : Op) → s.authorized_router ≡ false → step s op ≡ s
unfolding step deposit withdraw_principal trade_settle loss_event tick_warmup liquidate_account
    withdraw_pnl matcher_noise liquidate_one liquidate_one_unauthorized
unauthorized-step s (Op.deposits uid amount) h = ground arith
unauthorized-step s op h = ground arith

-- Without the router's authority no sequence of operations changes anything.
pub unauthorized-run : (s : State) (ops : List Op) → s.authorized_router ≡ false → run s ops ≡ s
unfolding run
unauthorized-run s [] h = refl
unauthorized-run s (op ∷ ops) h = rw (unauthorized-step s op h) (unauthorized-run s ops h)
