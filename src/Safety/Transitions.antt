-- ===== src/Safety/Transitions.antt =====
-- The transitions of crates/model_safety/src/transitions.rs. Each takes a state and returns the next
-- one; the source's early returns give the state back.
use barista_dex_perc.Prelude.{
  ℕ, ◌+◌, ◌-◌, ◌%◌, ◌^◌, min, false, not, List, [], ◌∷◌, none, some, ltb, leb, ◌==◌, if◌then◌else◌,
  get_elem?, set, map,
}
use barista_dex_perc.Prelude.Int.{ℤ, pos, ltb_ℤ, leb_ℤ}
use barista_dex_perc.Math.{
  add_u128, sub_u128, add_i128, sub_i128, mul_u128, div_u128, min_u128, clamp_pos_i128,
  u128_to_i128,
}
use barista_dex_perc.Safety.State.{Account, Params, State}
use barista_dex_perc.Safety.Helpers.{
  effective_positive_pnl, withdrawable_pnl, sum_effective_winners, is_liquidatable,
  choose_liquidatable_index,
}

-- The guards that begin the operations on one user: the router's authority, then the index.
abbrev pub on_user : State → ℕ → (Account → State) → State
on_user s uid k =
    if s.authorized_router
    then elim (get_elem? s.users uid) [ none ↦ s | some user ↦ k user ]
    else s

unfoldable pub deposit : State → ℕ → ℕ → State
deposit s uid amount = on_user s uid λ user. record s {
  users = set s.users uid (record user { principal = add_u128 user.principal amount });
  vault = add_u128 s.vault amount;
}

-- The vault gains a realised profit and loses a realised loss.
unfoldable pub settle_vault : ℕ → ℤ → ℕ
settle_vault vault realized =
    if ltb_ℤ (pos 0) realized
    then add_u128 vault (clamp_pos_i128 realized)
    else sub_u128 vault (clamp_pos_i128 (sub_i128 (pos 0) realized))

unfoldable pub trade_settle : State → ℕ → ℤ → State
trade_settle s uid realized = on_user s uid λ user. record s {
  users = set s.users uid (record user { pnl_ledger = add_i128 user.pnl_ledger realized });
  vault = settle_vault s.vault realized;
}

-- One round of the loop of `socialize_losses`, on what remains of the haircut and the vault.
unfoldable pub take_share : ℕ → ℕ → ℕ → ℕ → Account → Account × ℕ × ℕ
take_share total_eff_winners actual_haircut remaining vault user =
    if leb_ℤ user.pnl_ledger (pos 0)
    then (user, remaining, vault)
    else let eff_pos = effective_positive_pnl user in
      if eff_pos == 0
      then (user, remaining, vault)
      else let share =
          min_u128
            (min_u128
              (if ltb 0 total_eff_winners
                then div_u128 (mul_u128 eff_pos actual_haircut) total_eff_winners
                else 0)
              remaining)
            eff_pos in
        (
          record user { pnl_ledger = sub_i128 user.pnl_ledger (u128_to_i128 share) },
          sub_u128 remaining share,
          sub_u128 vault share,
        )

unfoldable pub haircut_users : ℕ → ℕ → ℕ → ℕ → List Account → List Account × ℕ × ℕ
haircut_users total_eff_winners actual_haircut remaining vault [] = ([], remaining, vault)
haircut_users total_eff_winners actual_haircut remaining vault (user ∷ users) =
    let (user', remaining', vault') =
      take_share total_eff_winners actual_haircut remaining vault user in
    let (users', remaining'', vault'') =
      haircut_users total_eff_winners actual_haircut remaining' vault' users in
    (user' ∷ users', remaining'', vault'')

unfoldable pub socialize_losses : State → ℕ → State
socialize_losses s deficit =
    if not s.authorized_router
    then s
    else if deficit == 0
    then s
    else let total_eff_winners = sum_effective_winners s in
      if total_eff_winners == 0
      then s
      else let actual_haircut = min_u128 deficit total_eff_winners in
        let (users', _, vault') =
          haircut_users total_eff_winners actual_haircut actual_haircut s.vault s.users in
        record s { users = users'; vault = vault' }

unfoldable pub loss_event : State → ℕ → State
unfolding socialize_losses
loss_event s deficit = socialize_losses s deficit

unfoldable pub withdraw_principal : State → ℕ → ℕ → State
withdraw_principal s uid amount = on_user s uid λ user.
    let actual_withdraw = min_u128 amount user.principal in
    record s {
      users = set s.users uid (record user { principal = sub_u128 user.principal actual_withdraw });
      vault = sub_u128 s.vault actual_withdraw;
    }

-- The largest withdrawal that leaves the margin requirement met; `warmed` without a position.
unfoldable pub margin_limited_withdraw : Params → Account → ℕ → ℕ
margin_limited_withdraw params user warmed =
    if ltb 0 user.position_size
    then (let collateral_scaled =
          mul_u128 (add_u128 user.principal (clamp_pos_i128 user.pnl_ledger)) 1_000_000 in
        let required_margin_scaled = mul_u128 user.position_size params.maintenance_margin_bps in
        if ltb required_margin_scaled collateral_scaled
        then div_u128 (sub_u128 collateral_scaled required_margin_scaled) 1_000_000
        else 0)
    else warmed

-- `current_step` is a u32, and the slot is cut to 32 bits before the subtraction.
unfoldable pub warmed_pnl : Account → ℕ → ℕ
warmed_pnl user current_step =
    withdrawable_pnl user (current_step - user.warmup_state.started_at_slot % 2 ^ 32)
      user.warmup_state.slope_per_step

-- The least of what is asked for, what has warmed up and what the margin allows.
unfoldable pub actual_withdraw : Params → Account → ℕ → ℕ → ℕ
actual_withdraw params user amount current_step =
    min_u128 (min_u128 amount (warmed_pnl user current_step))
      (margin_limited_withdraw params user (warmed_pnl user current_step))

unfoldable pub withdraw_pnl : State → ℕ → ℕ → ℕ → State
withdraw_pnl s uid amount current_step = on_user s uid λ user.
    let withdrawn = actual_withdraw s.params user amount current_step in
    if withdrawn == 0 then s else record s {
      users =
          set s.users uid
            (record user { pnl_ledger = sub_i128 user.pnl_ledger (u128_to_i128 withdrawn) });
      vault = sub_u128 s.vault withdrawn;
    }

unfoldable pub advance_warmup : ℕ → Account → Account
advance_warmup steps user = record user {
  warmup_state = record {
    started_at_slot = min (user.warmup_state.started_at_slot + steps) (2 ^ 64 - 1);
    slope_per_step = user.warmup_state.slope_per_step;
  };
}

unfoldable pub tick_warmup : State → ℕ → State
tick_warmup s steps =
    if s.authorized_router then record s { users = map (advance_warmup steps) s.users } else s

unfoldable pub matcher_noise : State → State
matcher_noise s = s

-- The account and the insurance fund after the position is closed and a loss is realised.
unfoldable pub cover_loss : ℕ → Account → Account × ℕ
cover_loss insurance_fund user =
    if ltb_ℤ user.pnl_ledger (pos 0)
    then (let loss = clamp_pos_i128 (sub_i128 (pos 0) user.pnl_ledger) in
        if leb loss insurance_fund
        then (record user { pnl_ledger = pos 0; position_size = 0 }, sub_u128 insurance_fund loss)
        else (
          record user {
            pnl_ledger = add_i128 user.pnl_ledger (u128_to_i128 insurance_fund);
            position_size = 0;
          },
          0,
        ))
    else (record user { position_size = 0 }, insurance_fund)

unfoldable pub liquidate_account : State → ℕ → State
liquidate_account s uid = on_user s uid λ user.
    if not (is_liquidatable user s.params)
    then s
    else let (user', insurance_fund') = cover_loss s.insurance_fund user in
      record s { users = set s.users uid user'; insurance_fund = insurance_fund' }

unfoldable pub liquidate_one : State → State
unfolding liquidate_account
liquidate_one s =
    let uid = choose_liquidatable_index s in
    on_user s uid λ user. if not (is_liquidatable user s.params) then s else liquidate_account s uid

unfoldable pub liquidate_one_unauthorized : State → State
unfolding liquidate_one
liquidate_one_unauthorized s = liquidate_one (record s { authorized_router = false })
