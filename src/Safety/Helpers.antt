-- ===== src/Safety/Helpers.antt =====
-- crates/model_safety/src/warmup.rs and helpers.rs. The prices that helpers.rs takes are unused there.
use barista_dex_perc.Prelude.{
  ℕ, ◌+◌, min, Bool, true, false, ◌&&◌, List, [], ◌∷◌, ltb, ◌==◌, if◌then◌else◌, foldl, length,
}
use barista_dex_perc.Prelude.Int.{pos, ltb_ℤ, ◌==ℤ◌}
use barista_dex_perc.Math.{add_u128, sub_u128, mul_u128, min_u128, clamp_pos_i128, sub_i128}
use barista_dex_perc.Safety.State.{Account, Params, State}

unfoldable pub effective_positive_pnl : Account → ℕ
effective_positive_pnl acc = sub_u128 (clamp_pos_i128 acc.pnl_ledger) acc.reserved_pnl

unfoldable pub withdrawable_pnl : Account → ℕ → ℕ → ℕ
withdrawable_pnl acc steps_since_start per_step =
    min_u128 (mul_u128 steps_since_start per_step) (effective_positive_pnl acc)

unfoldable pub sum_principal : List Account → ℕ
sum_principal = foldl (λ acc u. add_u128 acc u.principal) 0

unfoldable pub sum_pos_pnl : List Account → ℕ
sum_pos_pnl = foldl (λ acc u. add_u128 acc (clamp_pos_i128 u.pnl_ledger)) 0

unfoldable pub conservation_ok : State → Bool
conservation_ok s =
    s.vault
    == sub_u128 (add_u128 (add_u128 (sum_principal s.users) s.insurance_fund) (sum_pos_pnl s.users))
        s.fees_outstanding

unfoldable pub sum_effective_winners : State → ℕ
sum_effective_winners s = foldl (λ acc u. add_u128 acc (effective_positive_pnl u)) 0 s.users

-- `zip` and `all` of the source, over states with as many users.
unfoldable pub all_pairs : (Account → Account → Bool) → List Account → List Account → Bool
all_pairs p [] [] = true
all_pairs p (a ∷ as') (b ∷ bs) = p a b && all_pairs p as' bs
all_pairs p _ _ = false

unfoldable pub principals_unchanged : State → State → Bool
principals_unchanged before after =
    all_pairs (λ a b. a.principal == b.principal) before.users after.users

unfoldable pub winners_only_haircut : State → State → Bool
winners_only_haircut before after =
    all_pairs (λ a b. if ltb_ℤ b.pnl_ledger a.pnl_ledger then ltb_ℤ (pos 0) a.pnl_ledger else true)
      before.users after.users

-- The fold of `total_haircut` over the users of both states; states with as many users.
unfoldable pub add_haircuts : ℕ → List Account → List Account → ℕ
add_haircuts acc (a ∷ as') (b ∷ bs) =
    add_haircuts
      (if ltb_ℤ b.pnl_ledger a.pnl_ledger
        then add_u128 acc (clamp_pos_i128 (sub_i128 a.pnl_ledger b.pnl_ledger))
        else acc)
      as' bs
add_haircuts acc _ _ = acc

unfoldable pub total_haircut : State → State → ℕ
total_haircut before after =
    if length before.users == length after.users then add_haircuts 0 before.users after.users else 0

unfoldable pub valid_for_liquidation : State → Bool
valid_for_liquidation s = s.authorized_router

unfoldable pub balances_unchanged : State → State → Bool
balances_unchanged before after =
    before.vault == after.vault
    && all_pairs (λ a b. a.principal == b.principal && a.pnl_ledger ==ℤ b.pnl_ledger) before.users
        after.users

unfoldable pub is_liquidatable : Account → Params → Bool
is_liquidatable acc params =
    if acc.position_size == 0
    then false
    else ltb (mul_u128 (add_u128 acc.principal (clamp_pos_i128 acc.pnl_ledger)) 1_000_000)
        (mul_u128 acc.position_size params.maintenance_margin_bps)

-- A u8 that saturates.
unfoldable pub count_liquidatable : Params → ℕ → List Account → ℕ
count_liquidatable params count [] = count
count_liquidatable params count (acc ∷ users) =
    count_liquidatable params (if is_liquidatable acc params then min (count + 1) 255 else count)
      users

unfoldable pub liquidatable_count : State → ℕ
liquidatable_count s = count_liquidatable s.params 0 s.users

-- The first liquidatable index at or after `i`; the source's fallback is 0.
unfoldable pub first_liquidatable : Params → ℕ → List Account → ℕ
first_liquidatable params i [] = 0
first_liquidatable params i (acc ∷ users) = elim (is_liquidatable acc params) [
  | true ↦ i
  | false ↦ first_liquidatable params (i + 1) users
]

unfoldable pub choose_liquidatable_index : State → ℕ
choose_liquidatable_index s = first_liquidatable s.params 0 s.users
