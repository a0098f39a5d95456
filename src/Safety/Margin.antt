-- ===== src/Safety/Margin.antt =====
-- The two limits on a withdrawal of PnL in crates/model_safety/src/transitions.rs.
use native.Mathlib.Nat.{div-mul-le_self}
use barista_dex_perc.Prelude.{
  ℕ, ◌+◌, ◌-◌, ◌*◌, ◌%◌, ◌^◌, ◌≤◌, ◌<◌, ◌≡◌, ◌∙◌, true, false, some, inl, inr, arith, get_elem?,
  get_elem?-set-some, ◌⊎◌, Bool-cases, if◌then◌else◌, ltb, ◌==◌,
}
use barista_dex_perc.Prelude.Int.{pos_part, neg_part}
use barista_dex_perc.Math.{u128_max, mul_u128, div_u128, min_u128, sub_i128, u128_to_i128}
use barista_dex_perc.Math.Bounds.{
  add_u128_lem, sub_u128_lem, clamp_pos_i128_lem, min_u128_lem, u128_to_i128_lem, sub_i128_parts,
}
use barista_dex_perc.Safety.State.{Account, Params, State}
use barista_dex_perc.Safety.Helpers.{is_liquidatable, effective_positive_pnl, withdrawable_pnl}
use barista_dex_perc.Safety.Transitions.{
  margin_limited_withdraw, warmed_pnl, actual_withdraw, withdraw_pnl,
}
use barista_dex_perc.Safety.Conservation.{PnlInRange}

abbrev collateral : Account → ℕ
collateral u = u.principal + pos_part u.pnl_ledger

-- The margin products of an account do not overflow.
pub record FitsMargin (p : Params) (u : Account) : Type 0 where
  pub range : PnlInRange u
  pub scaled : collateral u * 1_000_000 ≤ u128_max
  pub required : u.position_size * p.maintenance_margin_bps ≤ u128_max

abbrev after_taking : Account → ℕ → Account
after_taking u w = record u { pnl_ledger = sub_i128 u.pnl_ledger (u128_to_i128 w) }

is_liquidatable-eq :
    (p : Params) (u : Account)
    → FitsMargin p u
    → is_liquidatable u p ≡ (
        if u.position_size == 0
        then false
        else ltb (collateral u * 1_000_000) (u.position_size * p.maintenance_margin_bps))
unfolding is_liquidatable mul_u128
is_liquidatable-eq p u f = ground (
  arith,
  clamp_pos_i128_lem u.pnl_ledger f.range.0,
  add_u128_lem u.principal (pos_part u.pnl_ledger),
)

margin_limited-le :
    (p : Params) (u : Account) (n : ℕ)
    → FitsMargin p u
    → 0 < u.position_size
    → u.position_size * p.maintenance_margin_bps ≤ collateral u * 1_000_000
    → margin_limited_withdraw p u n * 1_000_000 + u.position_size * p.maintenance_margin_bps
      ≤ collateral u * 1_000_000
unfolding margin_limited_withdraw mul_u128 div_u128
margin_limited-le p u n f pos_size ok =
    let c = collateral u * 1_000_000 - u.position_size * p.maintenance_margin_bps in
    ground (
      arith,
      clamp_pos_i128_lem u.pnl_ledger f.range.0,
      add_u128_lem u.principal (pos_part u.pnl_ledger),
      sub_u128_lem (collateral u * 1_000_000) (u.position_size * p.maintenance_margin_bps),
      div-mul-le_self c 1_000_000,
    )

warmed_pnl-le :
    (u : Account) (now : ℕ)
    → PnlInRange u
    → (warmed_pnl u now ≤ pos_part u.pnl_ledger - u.reserved_pnl)
      × (warmed_pnl u now
          ≤ (now - u.warmup_state.started_at_slot % 2 ^ 32) * u.warmup_state.slope_per_step)
unfolding warmed_pnl withdrawable_pnl effective_positive_pnl mul_u128
warmed_pnl-le u now r = omega (arith, min_u128_lem, sub_u128_lem, clamp_pos_i128_lem u.pnl_ledger)

-- What a withdrawal of PnL took from one user, by how that user stood.
pub record Withdrawn (p : Params) (u : Account) (amount now : ℕ) (u' : Account) : Type 0 where
  pub no_more_than_asked : pos_part u.pnl_ledger ≤ pos_part u'.pnl_ledger + amount
  pub reserve_kept :
      pos_part u.pnl_ledger ≤ pos_part u'.pnl_ledger + (pos_part u.pnl_ledger - u.reserved_pnl)
  pub warmed_up :
      pos_part u.pnl_ledger
      ≤ pos_part u'.pnl_ledger
        + (now - u.warmup_state.started_at_slot % 2 ^ 32) * u.warmup_state.slope_per_step
  pub margin_kept : (is_liquidatable u' p ≡ false) ⊎ (is_liquidatable u p ≡ true)

taken_parts :
    (u : Account) (w : ℕ)
    → PnlInRange u
    → w ≤ pos_part u.pnl_ledger
    → (pos_part (after_taking u w).pnl_ledger + w ≡ pos_part u.pnl_ledger)
      × (neg_part (after_taking u w).pnl_ledger ≡ neg_part u.pnl_ledger)
taken_parts u w r le = rw (u128_to_i128_lem w (omega arith)) (sub_i128_parts u.pnl_ledger w r le)

after_taking-FitsMargin :
    (p : Params) (u : Account) (w : ℕ)
    → FitsMargin p u
    → w ≤ pos_part u.pnl_ledger
    → FitsMargin p (after_taking u w)
after_taking-FitsMargin p u w f le = record {
  range = omega (arith, f.range, taken_parts u w f.range le);
  scaled = omega (arith, f.scaled, taken_parts u w f.range le);
  required = f.required;
}

-- A withdrawal within the margin's limit leaves the account above maintenance.
taken_margin :
    (p : Params) (u : Account) (n w : ℕ)
    → FitsMargin p u
    → w ≤ pos_part u.pnl_ledger
    → w ≤ margin_limited_withdraw p u n
    → is_liquidatable u p ≡ false
    → is_liquidatable (after_taking u w) p ≡ false
taken_margin p u n w f le lim h =
    is_liquidatable-eq p (after_taking u w) (after_taking-FitsMargin p u w f le)
    ∙ ground
        (arith, is_liquidatable-eq p u f, taken_parts u w f.range le, margin_limited-le p u n f)

after_taking-Withdrawn :
    (p : Params) (u : Account) (amount now : ℕ)
    → FitsMargin p u
    → Withdrawn p u amount now (after_taking u (actual_withdraw p u amount now))
unfolding actual_withdraw
after_taking-Withdrawn p u amount now f =
    let n = warmed_pnl u now in
    let w = min_u128 (min_u128 amount n) (margin_limited_withdraw p u n) in
    let a = min_u128_lem amount n in
    let b = min_u128_lem (min_u128 amount n) (margin_limited_withdraw p u n) in
    let c = warmed_pnl-le u now f.range in
    let le : w ≤ pos_part u.pnl_ledger = omega (arith, a, b, c) in
    let t = taken_parts u w f.range le in
    record {
      no_more_than_asked = omega (arith, a, b, t);
      reserve_kept = omega (arith, a, b, c, t);
      warmed_up = omega (arith, a, b, c, t);
      margin_kept = elim (Bool-cases (is_liquidatable u p)) [
        | inl low ↦ inr low
        | inr fine ↦ inl (taken_margin p u n w f le b.1 fine)
      ];
    }

untouched-Withdrawn : (p : Params) (u : Account) (amount now : ℕ) → Withdrawn p u amount now u
untouched-Withdrawn p u amount now = record {
  no_more_than_asked = omega arith;
  reserve_kept = omega arith;
  warmed_up = omega arith;
  margin_kept = elim (Bool-cases (is_liquidatable u p)) [ inl low ↦ inr low | inr fine ↦ inl fine ];
}

-- The account after a withdrawal: as it was, or less what was withdrawn.
withdraw_pnl-cases :
    (s : State) (uid amount now : ℕ) (u u' : Account)
    → get_elem? s.users uid ≡ some u
    → get_elem? (withdraw_pnl s uid amount now).users uid ≡ some u'
    → (u' ≡ u) ⊎ (u' ≡ after_taking u (actual_withdraw s.params u amount now))
unfolding withdraw_pnl
withdraw_pnl-cases s uid amount now u u' e e' =
    let w = actual_withdraw s.params u amount now in
    elim (Bool-cases s.authorized_router) [
      | inl a ↦ elim (Bool-cases (w == 0)) [
        | inl z ↦ inl (ground arith)
        | inr z ↦ inr (ground (arith, get_elem?-set-some s.users uid (after_taking u w) e))
      ]
      | inr a ↦ inl (ground arith)
    ]

-- Whatever is asked for, a withdrawal of PnL takes at most that, leaves the reserve, takes no more
-- than has warmed up since the user's slot, and does not make the account that withdraws liquidatable
-- if it was not so before. The products of the margin test must fit a u128.
pub withdraw_pnl-Withdrawn :
    (s : State) (uid amount now : ℕ) (u u' : Account)
    → FitsMargin s.params u
    → get_elem? s.users uid ≡ some u
    → get_elem? (withdraw_pnl s uid amount now).users uid ≡ some u'
    → Withdrawn s.params u amount now u'
withdraw_pnl-Withdrawn s uid amount now u u' f e e' =
    elim (withdraw_pnl-cases s uid amount now u u' e e') [
      | inl same ↦ rw same (untouched-Withdrawn s.params u amount now)
      | inr less ↦ rw less (after_taking-Withdrawn s.params u amount now f)
    ]
