-- ===== src/Safety/Principal.antt =====
-- No operation of crates/model_safety/src/transitions.rs but two touches a principal.
use barista_dex_perc.Prelude.{
  ℕ, ◌≡◌, refl, ap, ap₂, false, some, inl, inr, List, [], ◌∷◌, map, arith, get_elem?, Option-cases,
  map-set_same,
}
use barista_dex_perc.Prelude.Int.{ℤ}
use barista_dex_perc.Math.{min_u128, sub_i128, u128_to_i128}
use barista_dex_perc.Safety.State.{Account, State}
use barista_dex_perc.Safety.Helpers.{sum_effective_winners, choose_liquidatable_index}
use barista_dex_perc.Safety.Transitions.{
  on_user, trade_settle, take_share, haircut_users, socialize_losses, loss_event, actual_withdraw,
  withdraw_pnl, advance_warmup, tick_warmup, matcher_noise, cover_loss, liquidate_account,
  liquidate_one, liquidate_one_unauthorized,
}
use barista_dex_perc.Safety.Step.{Op, step}

abbrev pub principals : State → List ℕ
principals s = map (λ u. u.principal) s.users

-- The operations that may change a principal.
abbrev MovesPrincipal : Op → Type 0
MovesPrincipal (Op.deposits _ _) = Unit
MovesPrincipal (Op.withdraws_principal _ _) = Unit
MovesPrincipal _ = ⊥

take_share-principal :
    (t h r v : ℕ) (u : Account) → (take_share t h r v u).0.principal ≡ u.principal
unfolding take_share
take_share-principal t h r v u = ground arith

haircut_users-principal :
    (t h r v : ℕ) (us : List Account)
    → map (λ u. u.principal) (haircut_users t h r v us).0 ≡ map (λ u. u.principal) us
unfolding haircut_users
haircut_users-principal t h r v [] = refl
haircut_users-principal t h r v (u ∷ us) =
    let t' = take_share t h r v u in
    ap₂ ◌∷◌ (take_share-principal t h r v u) (haircut_users-principal t h t'.1 t'.2 us)

socialize_losses-principals : (s : State) (d : ℕ) → principals (socialize_losses s d) ≡ principals s
unfolding socialize_losses
socialize_losses-principals s d = ground (
  arith,
  haircut_users-principal (sum_effective_winners s) (min_u128 d (sum_effective_winners s))
      (min_u128 d (sum_effective_winners s)) s.vault s.users,
)

advance_warmup-principals :
    (n : ℕ) (us : List Account)
    → map (λ u. u.principal) (map (advance_warmup n) us) ≡ map (λ u. u.principal) us
unfolding advance_warmup
advance_warmup-principals n [] = refl
advance_warmup-principals n (u ∷ us) = ap (◌∷◌ u.principal) (advance_warmup-principals n us)

cover_loss-principal : (i : ℕ) (u : Account) → (cover_loss i u).0.principal ≡ u.principal
unfolding cover_loss
cover_loss-principal i u = ground arith

-- A write at one user that keeps the principal.
on_user-principals :
    (s : State) (uid : ℕ) (k : Account → State)
    → ((u : Account) → get_elem? s.users uid ≡ some u → principals (k u) ≡ principals s)
    → principals (on_user s uid k) ≡ principals s
on_user-principals s uid k h = elim (Option-cases (get_elem? s.users uid)) [
  | inl e ↦ ground arith
  | inr (u, e) ↦ ground (arith, h u e)
]

liquidate_account-principals :
    (s : State) (uid : ℕ) → principals (liquidate_account s uid) ≡ principals s
unfolding liquidate_account
liquidate_account-principals s uid = on_user-principals s uid _ λ u e. ground (
  arith,
  map-set_same (λ a. a.principal) s.users uid (cover_loss s.insurance_fund u).0 e
      (cover_loss-principal s.insurance_fund u),
)

trade_settle-principals :
    (s : State) (uid : ℕ) (r : ℤ) → principals (trade_settle s uid r) ≡ principals s
unfolding trade_settle
trade_settle-principals s uid r =
    on_user-principals s uid _ λ u e. map-set_same (λ a. a.principal) s.users uid _ e refl

withdraw_pnl-principals :
    (s : State) (uid a n : ℕ) → principals (withdraw_pnl s uid a n) ≡ principals s
unfolding withdraw_pnl
withdraw_pnl-principals s uid a n = on_user-principals s uid _ λ u e. ground (
  arith,
  map-set_same (λ a. a.principal) s.users uid
      (record u {
        pnl_ledger = sub_i128 u.pnl_ledger (u128_to_i128 (actual_withdraw s.params u a n));
      })
      e refl,
)

liquidate_one-principals : (s : State) → principals (liquidate_one s) ≡ principals s
unfolding liquidate_one
liquidate_one-principals s =
    on_user-principals s (choose_liquidatable_index s) _
      λ u e. ground (arith, liquidate_account-principals s (choose_liquidatable_index s))

-- Only a deposit and a withdrawal of principal change any user's principal.
pub step-principals :
    (s : State) (op : Op) → ¬ MovesPrincipal op → principals (step s op) ≡ principals s
unfolding step loss_event tick_warmup matcher_noise liquidate_one_unauthorized
step-principals s (Op.deposits _ _) h = absurd (h tt)
step-principals s (Op.withdraws_principal _ _) h = absurd (h tt)
step-principals s (Op.settles uid r) h = trade_settle-principals s uid r
step-principals s (Op.loses d) h = socialize_losses-principals s d
step-principals s (Op.socializes d) h = socialize_losses-principals s d
step-principals s (Op.ticks n) h = ground (arith, advance_warmup-principals n s.users)
step-principals s (Op.liquidates uid) h = liquidate_account-principals s uid
step-principals s (Op.withdraws_pnl uid a n) h = withdraw_pnl-principals s uid a n
step-principals s Op.noise h = refl
step-principals s Op.liquidates_one h = liquidate_one-principals s
step-principals s Op.liquidates_unauthorized h =
    liquidate_one-principals (record s { authorized_router = false })
