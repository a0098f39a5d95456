-- ===== src/Safety/Books.antt =====
-- Each operation of crates/model_safety/src/transitions.rs against conservation of funds.
use barista_dex_perc.Prelude.{
  ℕ, ◌+◌, ◌≤◌, ◌≡◌, refl, some, inl, inr, List, [], ◌∷◌, map, arith, get_elem?, set, sum_by,
  sum_by-set, le-sum_by, All, All-get_elem?, All-set, ◌==◌, Bool-cases,
}
use barista_dex_perc.Prelude.Int.{pos_part}
use barista_dex_perc.Math.{u128_max, sub_u128, sub_i128, u128_to_i128, min_u128}
use barista_dex_perc.Math.Bounds.{
  add_u128_lem, sub_u128_lem, clamp_pos_i128_lem, min_u128_lem, u128_to_i128_lem, sub_i128_parts,
}
use barista_dex_perc.Safety.State.{Account, State}
use barista_dex_perc.Safety.Helpers.{effective_positive_pnl, withdrawable_pnl}
use barista_dex_perc.Safety.Transitions.{
  deposit, withdraw_principal, warmed_pnl, actual_withdraw, withdraw_pnl, advance_warmup,
  tick_warmup,
}
use barista_dex_perc.Safety.Step.{on_user_cases}
use barista_dex_perc.Safety.Conservation.{principal_of, pos_pnl_of, PnlInRange, total, IsSound}

abbrev pub owned : Account → ℕ
owned u = u.principal + pos_part u.pnl_ledger

-- A write at one user, with the vault moved by the same amount as what the user owns.
pub write-IsSound :
    (s : State) (uid : ℕ) {u : Account} (u' : Account) (vault' : ℕ)
    → IsSound s
    → get_elem? s.users uid ≡ some u
    → PnlInRange u'
    → vault' + owned u ≡ s.vault + owned u'
    → total s + owned u' ≤ u128_max + owned u
    → IsSound (record s { users = set s.users uid u'; vault = vault' })
write-IsSound s uid {u} u' vault' v e r b f = record {
  ranges = All-set PnlInRange s.users uid u' v.ranges r;
  fits =
      omega
        (arith, sum_by-set principal_of s.users uid u' e, sum_by-set pos_pnl_of s.users uid u' e);
  balanced = omega (
    arith,
    v.balanced,
    sum_by-set principal_of s.users uid u' e,
    sum_by-set pos_pnl_of s.users uid u' e,
  );
}

-- A user owns no more than the total, which fits.
pub owned-le :
    (s : State) (uid : ℕ) {u : Account}
    → IsSound s
    → get_elem? s.users uid ≡ some u
    → (owned u ≤ total s) × (total s ≤ u128_max) × PnlInRange u
owned-le s uid v e = (
  omega (arith, le-sum_by principal_of s.users uid e, le-sum_by pos_pnl_of s.users uid e),
  v.fits,
  All-get_elem? PnlInRange s.users uid v.ranges e,
)

-- A deposit that does not overflow the total keeps the books.
pub deposit-IsSound :
    (s : State) (uid amount : ℕ)
    → IsSound s
    → total s + amount ≤ u128_max
    → IsSound (deposit s uid amount)
unfolding deposit
deposit-IsSound s uid amount v h = on_user_cases IsSound s uid _ v λ u e.
    write-IsSound s uid _ _ v e (owned-le s uid v e).2
      (omega (
        arith,
        add_u128_lem u.principal amount,
        add_u128_lem s.vault amount,
        owned-le s uid v e,
        v.balanced,
      ))
      (omega (arith, add_u128_lem u.principal amount, owned-le s uid v e))

pub withdraw_principal-IsSound :
    (s : State) (uid amount : ℕ)
    → IsSound s
    → s.fees_outstanding + amount ≤ total s
    → IsSound (withdraw_principal s uid amount)
unfolding withdraw_principal
withdraw_principal-IsSound s uid amount v h = on_user_cases IsSound s uid _ v λ u e.
    let w = min_u128 amount u.principal in
    write-IsSound s uid _ _ v e (owned-le s uid v e).2
      (omega (
        arith,
        min_u128_lem amount u.principal,
        sub_u128_lem u.principal w,
        sub_u128_lem s.vault w,
        v.balanced,
      ))
      (omega (arith, v.fits, sub_u128_lem u.principal w))

warmed_pnl-le : (u : Account) (n : ℕ) → PnlInRange u → warmed_pnl u n ≤ pos_part u.pnl_ledger
unfolding warmed_pnl withdrawable_pnl effective_positive_pnl
warmed_pnl-le u n r = omega (arith, min_u128_lem, sub_u128_lem, clamp_pos_i128_lem u.pnl_ledger)

actual_withdraw-le :
    (s : State) (u : Account) (a n : ℕ)
    → PnlInRange u
    → (actual_withdraw s.params u a n ≤ a)
      × (actual_withdraw s.params u a n ≤ pos_part u.pnl_ledger)
unfolding actual_withdraw
actual_withdraw-le s u a n r = omega (arith, min_u128_lem, warmed_pnl-le u n r)

-- Taking an amount that the user has out of the user's PnL and out of the vault.
take-IsSound :
    (s : State) (uid w : ℕ) {u : Account}
    → IsSound s
    → get_elem? s.users uid ≡ some u
    → w ≤ pos_part u.pnl_ledger
    → s.fees_outstanding + w ≤ total s
    → IsSound (record s {
      users = set s.users uid (record u { pnl_ledger = sub_i128 u.pnl_ledger (u128_to_i128 w) });
      vault = sub_u128 s.vault w;
    })
take-IsSound s uid w {u} v e le h =
    let r = (owned-le s uid v e).2 in
    write-IsSound s uid _ _ v e
      (rw (u128_to_i128_lem w (omega arith)) (omega (arith, sub_i128_parts u.pnl_ledger w r le)))
      (rw (u128_to_i128_lem w (omega arith))
        (omega (arith, v.balanced, sub_u128_lem s.vault w, sub_i128_parts u.pnl_ledger w r le)))
      (rw (u128_to_i128_lem w (omega arith))
        (omega (arith, v.fits, sub_i128_parts u.pnl_ledger w r le)))

pub withdraw_pnl-IsSound :
    (s : State) (uid amount now : ℕ)
    → IsSound s
    → s.fees_outstanding + amount ≤ total s
    → IsSound (withdraw_pnl s uid amount now)
unfolding withdraw_pnl
withdraw_pnl-IsSound s uid amount now v h = on_user_cases IsSound s uid _ v λ u e.
    let w = actual_withdraw s.params u amount now in
    let b = actual_withdraw-le s u amount now (owned-le s uid v e).2 in
    elim (Bool-cases (w == 0)) [
      | inl z ↦ rw z v
      | inr z ↦ rw z (take-IsSound s uid w v e b.1 (omega arith))
    ]

advance_warmup-sums :
    (n : ℕ) (us : List Account)
    → (sum_by principal_of (map (advance_warmup n) us) ≡ sum_by principal_of us)
      × (sum_by pos_pnl_of (map (advance_warmup n) us) ≡ sum_by pos_pnl_of us)
      × (All PnlInRange us → All PnlInRange (map (advance_warmup n) us))
unfolding advance_warmup
advance_warmup-sums n [] = (refl, refl, λ h. h)
advance_warmup-sums n (u ∷ us) =
    let rest = advance_warmup-sums n us in
    (omega (arith, rest.0), omega (arith, rest.1), λ h. (h.0, rest.2 h.1))

pub tick_warmup-IsSound : (s : State) (steps : ℕ) → IsSound s → IsSound (tick_warmup s steps)
unfolding tick_warmup
tick_warmup-IsSound s steps v = ground (arith, advance_warmup-sums steps s.users)
