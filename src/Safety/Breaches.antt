-- ===== src/Safety/Breaches.antt =====
-- Where transitions.rs keeps the books of helpers.rs, and where it does not.
use barista_dex_perc.Prelude.{
  ℕ, ◌+◌, ◌-◌, ◌≤◌, ◌<◌, ◌≡◌, ◌∙◌, true, false, some, arith, get_elem?, set, sum_by-set, All-set,
}
use barista_dex_perc.Prelude.Int.{ℤ, pos, pos_part, neg_part}
use barista_dex_perc.Math.{u128_max, i128_max, add_i128}
use barista_dex_perc.Math.Bounds.{
  add_u128_lem, sub_u128_lem, clamp_pos_i128_lem, clamp_neg_i128, add_i128_parts, u128_to_i128_lem,
}
use barista_dex_perc.Safety.State.{Account, State}
use barista_dex_perc.Safety.Helpers.{conservation_ok, is_liquidatable}
use barista_dex_perc.Safety.Transitions.{settle_vault, trade_settle, cover_loss, liquidate_account}
use barista_dex_perc.Safety.Conservation.{
  principal_of, pos_pnl_of, PnlInRange, total, IsSound, conservation_ok-eq,
}
use barista_dex_perc.Safety.Books.{write-IsSound}

settle_vault-eq :
    (vault : ℕ) (realized : ℤ)
    → neg_part realized ≤ i128_max
    → pos_part realized ≤ i128_max
    → vault + pos_part realized ≤ u128_max
    → settle_vault vault realized ≡ vault + pos_part realized - neg_part realized
unfolding settle_vault
settle_vault-eq vault realized a b c = ground (
  arith,
  clamp_pos_i128_lem realized,
  clamp_neg_i128 realized,
  add_u128_lem vault (pos_part realized),
  sub_u128_lem vault (neg_part realized),
)

abbrev settled : State → ℕ → ℤ → Account → State
settled s uid realized u = record s {
  users = set s.users uid (record u { pnl_ledger = add_i128 u.pnl_ledger realized });
  vault = settle_vault s.vault realized;
}

trade_settle-eq :
    (s : State) (uid : ℕ) (realized : ℤ) {u : Account}
    → s.authorized_router ≡ true
    → get_elem? s.users uid ≡ some u
    → trade_settle s uid realized ≡ settled s uid realized u
unfolding trade_settle
trade_settle-eq s uid realized a e = ground arith

-- The account and the amount of a settlement in which nothing saturates.
pub record Settles (s : State) (uid : ℕ) (realized : ℤ) (u : Account) : Type 0 where
  pub sound : IsSound s
  pub found : get_elem? s.users uid ≡ some u
  pub authorized : s.authorized_router ≡ true
  pub gains : pos_part u.pnl_ledger + pos_part realized ≤ i128_max
  pub losses : neg_part u.pnl_ledger + neg_part realized ≤ i128_max
  pub vault_fits : total s + pos_part realized ≤ u128_max
  pub vault_pays : s.fees_outstanding + neg_part realized ≤ total s

-- A settlement that saturates nothing and leaves a winner a winner keeps the books.
pub trade_settle-IsSound :
    (s : State) (uid : ℕ) (realized : ℤ) (u : Account)
    → Settles s uid realized u
    → neg_part u.pnl_ledger ≡ 0
    → neg_part realized ≤ pos_part u.pnl_ledger + pos_part realized
    → IsSound (trade_settle s uid realized)
trade_settle-IsSound s uid realized u h z keep =
    let p = add_i128_parts u.pnl_ledger realized h.gains h.losses in
    let q =
      settle_vault-eq s.vault realized (omega (arith, h.losses)) (omega (arith, h.gains))
        (omega (arith, h.vault_fits, h.sound.balanced)) in
    rw (trade_settle-eq s uid realized h.authorized h.found) (
      write-IsSound s uid _ _ h.sound h.found (omega (arith, p, h.gains, h.losses))
        (omega (arith, p, q, z, h.vault_pays, h.sound.balanced))
        (omega (arith, p, z, h.vault_fits, h.sound.fits)))

-- A profit settled for an account with a loss breaks the books: the vault gains all of it, and the
-- positive PnL only what exceeds the loss.
pub trade_settle-breach :
    (s : State) (uid r : ℕ) (u : Account)
    → Settles s uid (pos r) u
    → 0 < r
    → 0 < neg_part u.pnl_ledger
    → pos_part u.pnl_ledger ≡ 0
    → conservation_ok (trade_settle s uid (pos r)) ≡ false
trade_settle-breach s uid r u h p n z =
    let t = settled s uid (pos r) u in
    let u' = record u { pnl_ledger = add_i128 u.pnl_ledger (pos r) } in
    let q =
      settle_vault-eq s.vault (pos r) (omega arith) (omega (arith, h.gains))
        (omega (arith, h.vault_fits, h.sound.balanced)) in
    let a = add_i128_parts u.pnl_ledger (pos r) h.gains h.losses in
    let b = sum_by-set principal_of s.users uid u' h.found in
    let c = sum_by-set pos_pnl_of s.users uid u' h.found in
    rw (trade_settle-eq s uid (pos r) h.authorized h.found) (
      conservation_ok-eq t
        (All-set PnlInRange s.users uid u' h.sound.ranges (omega (arith, a, h.gains, h.losses)))
        (omega (arith, a, b, c, z, h.vault_fits))
      ∙ ground (arith, a, b, c, q, h.vault_fits, h.sound.balanced))

abbrev covered : State → ℕ → Account → State
covered s uid u = record s {
  users = set s.users uid (cover_loss s.insurance_fund u).0;
  insurance_fund = (cover_loss s.insurance_fund u).1;
}

liquidate_account-eq :
    (s : State) (uid : ℕ) {u : Account}
    → s.authorized_router ≡ true
    → get_elem? s.users uid ≡ some u
    → is_liquidatable u s.params ≡ true
    → liquidate_account s uid ≡ covered s uid u
unfolding liquidate_account
liquidate_account-eq s uid a e l = ground arith

cover_loss-parts :
    (f : ℕ) (u : Account)
    → 0 < neg_part u.pnl_ledger
    → neg_part u.pnl_ledger ≤ i128_max
    → pos_part u.pnl_ledger ≡ 0
    → let (u', f') = cover_loss f u in
      (pos_part u'.pnl_ledger ≡ 0)
      × (neg_part u'.pnl_ledger ≤ neg_part u.pnl_ledger)
      × (u'.principal ≡ u.principal)
      × (f' ≡ f - neg_part u.pnl_ledger)
unfolding cover_loss
cover_loss-parts f u n r z = ground (
  arith,
  clamp_neg_i128 u.pnl_ledger r,
  sub_u128_lem f (neg_part u.pnl_ledger),
  u128_to_i128_lem f,
  add_i128_parts u.pnl_ledger (pos f),
)

-- A liquidation that draws on the insurance fund breaks the books: the fund falls, and the vault
-- and the positive PnL stay.
pub liquidate_account-breach :
    (s : State) (uid : ℕ) (u : Account)
    → IsSound s
    → s.authorized_router ≡ true
    → get_elem? s.users uid ≡ some u
    → is_liquidatable u s.params ≡ true
    → 0 < neg_part u.pnl_ledger
    → neg_part u.pnl_ledger ≤ i128_max
    → pos_part u.pnl_ledger ≡ 0
    → 0 < s.insurance_fund
    → 0 < s.vault
    → conservation_ok (liquidate_account s uid) ≡ false
liquidate_account-breach s uid u v a e l n r z i p =
    let u' = (cover_loss s.insurance_fund u).0 in
    let c = cover_loss-parts s.insurance_fund u n r z in
    let b = sum_by-set principal_of s.users uid u' e in
    let d = sum_by-set pos_pnl_of s.users uid u' e in
    rw (liquidate_account-eq s uid a e l) (
      conservation_ok-eq (covered s uid u)
        (All-set PnlInRange s.users uid u' v.ranges (omega (arith, c)))
        (omega (arith, b, c, d, v.fits))
      ∙ ground (arith, b, c, d, v.balanced))
