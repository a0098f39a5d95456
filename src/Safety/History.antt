-- ===== src/Safety/History.antt =====
-- Conservation over histories of the transitions of crates/model_safety/src/transitions.rs.
use barista_dex_perc.Prelude.{◌+◌, ◌≤◌, ◌≡◌, refl, true, false, List, [], ◌∷◌, sum_by}
use barista_dex_perc.Math.{u128_max}
use barista_dex_perc.Safety.State.{State}
use barista_dex_perc.Safety.Helpers.{conservation_ok}
use barista_dex_perc.Safety.Transitions.{loss_event, matcher_noise, liquidate_one_unauthorized}
use barista_dex_perc.Safety.Step.{Op, step, run, unauthorized-step}
use barista_dex_perc.Safety.Conservation.{principal_of, total, IsSound, IsSound-conservation_ok}
use barista_dex_perc.Safety.Books.{
  deposit-IsSound, withdraw_principal-IsSound, withdraw_pnl-IsSound, tick_warmup-IsSound,
}
use barista_dex_perc.Safety.Socialize.{socialize_losses-Socializes}

-- What an operation needs. A withdrawal is held to what it asks for, which may be more than what it
-- takes. Settlements and liquidations are left to
-- `Breaches`: they can break the books.
abbrev pub Allows : State → Op → Type 0
Allows s (Op.deposits uid amount) = total s + amount ≤ u128_max
Allows s (Op.withdraws_principal uid amount) = s.fees_outstanding + amount ≤ total s
Allows s (Op.withdraws_pnl uid amount now) = s.fees_outstanding + amount ≤ total s
Allows s (Op.socializes deficit) =
    s.fees_outstanding ≤ sum_by principal_of s.users + s.insurance_fund
Allows s (Op.loses deficit) = s.fees_outstanding ≤ sum_by principal_of s.users + s.insurance_fund
Allows s (Op.ticks steps) = Unit
Allows s Op.noise = Unit
Allows s Op.liquidates_unauthorized = Unit
Allows s _ = ⊥

abbrev pub AllowsAll : State → List Op → Type 0
AllowsAll s [] = Unit
AllowsAll s (op ∷ ops) = Allows s op × AllowsAll (step s op) ops

step-IsSound : (s : State) (op : Op) → IsSound s → Allows s op → IsSound (step s op)
unfolding step loss_event matcher_noise liquidate_one_unauthorized
step-IsSound s (Op.deposits uid amount) v a = deposit-IsSound s uid amount v a
step-IsSound s (Op.withdraws_principal uid amount) v a = withdraw_principal-IsSound s uid amount v a
step-IsSound s (Op.withdraws_pnl uid amount now) v a = withdraw_pnl-IsSound s uid amount now v a
step-IsSound s (Op.socializes d) v a = (socialize_losses-Socializes s d v a).sound
step-IsSound s (Op.loses d) v a = (socialize_losses-Socializes s d v a).sound
step-IsSound s (Op.ticks n) v a = tick_warmup-IsSound s n v
step-IsSound s Op.noise v a = v
step-IsSound s Op.liquidates_unauthorized v a =
    let t = record s { authorized_router = false } in
    rw (unauthorized-step t Op.liquidates_one refl)
      (record { ranges = v.ranges; fits = v.fits; balanced = v.balanced })
step-IsSound s (Op.settles uid r) v a = absurd a
step-IsSound s (Op.liquidates uid) v a = absurd a
step-IsSound s Op.liquidates_one v a = absurd a

run-IsSound : (s : State) (ops : List Op) → IsSound s → AllowsAll s ops → IsSound (run s ops)
unfolding run
run-IsSound s [] v a = v
run-IsSound s (op ∷ ops) v a = run-IsSound (step s op) ops (step-IsSound s op v a.0) a.1

-- From sound books any history of deposits, withdrawals, loss events, rounds of socialisation,
-- warm-up ticks, matcher noise and unauthorised liquidations ends in a state that the source's own
-- conservation check accepts, if each deposit leaves principals, insurance and positive PnL within a
-- u128, each withdrawal asks for no more than these exceed the fees by, and the fees are no more than
-- principals and insurance before each loss event and each round of socialisation.
pub run-conservation_ok :
    (s : State) (ops : List Op) → IsSound s → AllowsAll s ops → conservation_ok (run s ops) ≡ true
run-conservation_ok s ops v a = IsSound-conservation_ok (run s ops) (run-IsSound s ops v a)
