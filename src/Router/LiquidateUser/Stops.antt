-- ===== src/Router/LiquidateUser/Stops.antt =====
-- What process_liquidate_user of programs/router/src/instructions/liquidate_user.rs comes to.
use barista_dex_perc.Prelude.{
  ℕ, ◌-◌, ◌≤◌, ◌≡◌, ◌⊎◌, sym, Bool, true, not, some, inl, inr, arith, ◌==◌, length, Bool-cases,
}
use barista_dex_perc.Prelude.Int.{ℤ, neg_part, ltb_ℤ}
use barista_dex_perc.Prelude.Outcome.{
  Outcome, ok, reject_if, or_abort, >>=-eq-ok, >>-eq-ok, or_abort-eq-ok, ok_injective,
}
use barista_dex_perc.Math.{sub_u128}
use barista_dex_perc.Matcher.{PercolatorError, FillReceipt}
use barista_dex_perc.Router.Portfolio.{Portfolio}
use barista_dex_perc.Router.Vault.{Vault}
use barista_dex_perc.Router.Registry.{SlabRegistry}
use barista_dex_perc.Router.Funds.{Accounts}
use barista_dex_perc.Router.Order.{Order, touch, check_counts}
use barista_dex_perc.Router.CrossSlab.{process_execute_cross_slab}
use barista_dex_perc.Router.Liquidation.Planner.{LiquidationPlan, plan_reduce_only}
use barista_dex_perc.Router.LiquidateUser.{
  LiquidationMode, is_pre, determine_mode, Request, read_oracles, read_slabs, health_of,
  choose_mode, check_cooldown, liquidation_order, process_liquidate_user,
}

-- An order without position accounts and with a split is rejected.
counts_reject : (o : Order) → o.positions ≡ 0 → check_counts o ≡ ok tt → ⊥
unfolding check_counts
counts_reject o none_passed h = ground arith

order_positions :
    (s : Accounts) (q : Request) (plan : LiquidationPlan) (o : Order)
    → liquidation_order s q plan ≡ some o
    → o.positions ≡ 0
unfolding liquidation_order
order_positions s q plan o h = ground arith

module _ (venue : ℕ → ℕ → ℤ → ℤ → Outcome PercolatorError FillReceipt) where
  no_positions :
      (s : Accounts) (o : Order) (t : Accounts)
      → o.positions ≡ 0
      → process_execute_cross_slab venue s o ≡ ok t
      → ⊥
  unfolding process_execute_cross_slab
  no_positions s o t none_passed h =
      let (a, h1) = >>-eq-ok (reject_if (not (s.user.user == o.user_account)) _) _ h in
      let (u, eu, h2) = >>=-eq-ok (touch s o.current_slot) _ h1 in
      let (c, h3) = >>-eq-ok (check_counts o) _ h2 in counts_reject o none_passed c

  -- What a liquidation that succeeds has found, and left.
  pub record Stopped (s : Accounts) (q : Request) (t : Accounts) : Type 0 where
    pub unchanged : t ≡ record s { user = record s.user { health = health_of s.user } }
    pub mode : LiquidationMode
    pub weak :
        ((mode ≡ LiquidationMode.hard_liquidation) × (1 ≤ neg_part (health_of s.user)))
        ⊎ ((mode ≡ LiquidationMode.pre_liquidation)
            × (ltb_ℤ (health_of s.user) s.registry.preliq_buffer ≡ true)
            × (s.user.cooldown_seconds ≤ q.current_ts - s.user.last_liquidation_ts))
    pub plan : LiquidationPlan
    pub planned :
        plan_reduce_only
          (record s.user { health = health_of s.user })
          s.registry
          (read_oracles 0 q.oracles)
          (read_slabs 0 q.slabs)
          (is_pre mode)
        ≡ ok plan
    pub nothing : length plan.splits ≡ 0

  mode_weak :
      (r : SlabRegistry) (p : Portfolio) (is_preliq : Bool) (now : ℕ) (health : ℤ)
      (mode : LiquidationMode)
      → choose_mode r is_preliq health ≡ ok mode
      → check_cooldown p mode now ≡ ok tt
      → ((mode ≡ LiquidationMode.hard_liquidation) × (1 ≤ neg_part health))
        ⊎ ((mode ≡ LiquidationMode.pre_liquidation)
            × (ltb_ℤ health r.preliq_buffer ≡ true)
            × (p.cooldown_seconds ≤ now - p.last_liquidation_ts))
  unfolding choose_mode check_cooldown determine_mode sub_u128
  mode_weak r p is_preliq now health mode h c = ground arith

  -- Whatever the venues answer, a liquidation that succeeds has found a portfolio whose health is
  -- negative, or under the buffer with the cooldown over, has planned no split, and changes nothing but
  -- the health that the portfolio notes: one that plans a split always fails.
  pub process_liquidate_user-Stopped :
      (s : Accounts) (vault : Vault) (q : Request) (t : Accounts)
      → process_liquidate_user venue s vault q ≡ ok t
      → Stopped s q t
  unfolding process_liquidate_user
  process_liquidate_user-Stopped s vault q t h =
      let health = health_of s.user in
      let seen = record s { user = record s.user { health = health } } in
      let (m, em, h1) = >>=-eq-ok (choose_mode s.registry q.is_preliq health) _ h in
      let (c, h2) = >>-eq-ok (check_cooldown s.user m q.current_ts) _ h1 in
      let (plan, ep, h3) =
        >>=-eq-ok
          (plan_reduce_only seen.user s.registry (read_oracles 0 q.oracles) (read_slabs 0 q.slabs)
            (is_pre m))
          _ h2 in
      elim (Bool-cases (length plan.splits == 0)) [
        | inl y ↦ record {
          unchanged = sym (ok_injective (rw y at h3));
          mode = m;
          weak = mode_weak s.registry s.user q.is_preliq q.current_ts health m em c;
          plan = plan;
          planned = ep;
          nothing = ground arith;
        }
        | inr n ↦
            let (o, eo, h4) = >>=-eq-ok (or_abort (liquidation_order seen q plan)) _ (rw n at h3) in
            let (traded, et, h5) = >>=-eq-ok (process_execute_cross_slab venue seen o) _ h4 in
            absurd
              (no_positions seen o traded (order_positions seen q plan o (or_abort-eq-ok _ eo)) et)
      ]
