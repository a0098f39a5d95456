-- ===== src/Crisis/Reconcile.antt =====
-- That the reconciliation of crates/model_safety/src/crisis/materialize.rs is done once.
use barista_dex_perc.Prelude.{
  ℕ, ◌≡◌, ◌⊎◌, refl, subst, ◌∙◌, Bool, some, Option-cases, ◌-◌, inl, inr, arith, ◌==◌, Bool-cases,
  max,
}
use barista_dex_perc.Prelude.Options.{>>=-eq-some}
use barista_dex_perc.Math.{add_i128}
use barista_dex_perc.Crisis.Ratio.{mul_scaled}
use barista_dex_perc.Crisis.Accums.{Accums, UserPortfolio}
use barista_dex_perc.Crisis.Materialize.{
  MaterializeParams, scale_delta, apply_equity_scale_delta, apply_warming_scale_delta, vest,
  vested_in, vest_warming_to_realized, reconcile_equity, reconcile_warming, materialize_user,
}

-- A snapshot that has nothing to catch up with: it is the scale, or zero where the scale is the
-- least that the division takes it for.
IsCurrent : ℕ → ℕ → Type 0
IsCurrent snap scale = (snap ≡ scale) ⊎ (scale ≡ max snap 1)

apply_equity-IsCurrent :
    (u : UserPortfolio) (a : Accums) (f : Bool) {u1 : UserPortfolio}
    → apply_equity_scale_delta u a f ≡ some u1
    → IsCurrent u1.equity_scale_snap a.equity_scale
unfolding apply_equity_scale_delta IsCurrent
apply_equity-IsCurrent u a f h = ground (
  arith,
  Option-cases (
      mul_scaled (scale_delta a.equity_scale (max u.equity_scale_snap 1))
        (add_i128 u.principal u.realized)),
)

reconcile_equity-IsCurrent :
    (u : UserPortfolio) (a : Accums) (f : Bool) {u1 : UserPortfolio}
    → reconcile_equity u a f ≡ some u1
    → IsCurrent u1.equity_scale_snap a.equity_scale
unfolding reconcile_equity IsCurrent
reconcile_equity-IsCurrent u a f {u1} h =
    elim (Bool-cases (u.equity_scale_snap == a.equity_scale)) [
      | inl y ↦ inl (ground arith)
      | inr n ↦
          apply_equity-IsCurrent u a f
            (let e : apply_equity_scale_delta u a f ≡ some u1 = ground arith in e)
    ]

reconcile_warming-IsCurrent :
    (u : UserPortfolio) (a : Accums) {u1 : UserPortfolio}
    → reconcile_warming u a ≡ some u1
    → IsCurrent u1.warming_scale_snap a.warming_scale × (u1.equity_scale_snap ≡ u.equity_scale_snap)
unfolding reconcile_warming apply_warming_scale_delta IsCurrent
reconcile_warming-IsCurrent u a h = ground (
  arith,
  Option-cases (mul_scaled (scale_delta a.warming_scale (max u.warming_scale_snap 1)) u.warming),
)

-- A user with nothing to catch up with stays as it is.
reconcile_equity-current :
    (u : UserPortfolio) (a : Accums) (f : Bool)
    → IsCurrent u.equity_scale_snap a.equity_scale
    → reconcile_equity u a f ≡ some u
unfolding reconcile_equity apply_equity_scale_delta IsCurrent
reconcile_equity-current u a f h = ground arith

reconcile_warming-current :
    (u : UserPortfolio) (a : Accums)
    → IsCurrent u.warming_scale_snap a.warming_scale
    → reconcile_warming u a ≡ some u
unfolding reconcile_warming apply_warming_scale_delta IsCurrent
reconcile_warming-current u a h = ground arith

-- Vesting touches no scale.
vest-scales :
    (u : UserPortfolio) (a : Accums) (now tau : ℕ) {out : UserPortfolio × Accums}
    → vest_warming_to_realized u a now tau ≡ some out
    → (out.0.equity_scale_snap ≡ u.equity_scale_snap)
      × (out.0.warming_scale_snap ≡ u.warming_scale_snap)
      × (out.1.equity_scale ≡ a.equity_scale)
      × (out.1.warming_scale ≡ a.warming_scale)
unfolding vest_warming_to_realized vest
vest-scales u a now tau h =
    ground (arith, Option-cases (vested_in u.warming (now - u.last_touch_slot) tau))

-- Nothing vests twice in a slot.
vest_again :
    (u : UserPortfolio) (a : Accums) (now tau : ℕ)
    → vest_warming_to_realized (record u { last_touch_slot = now }) a now tau
      ≡ some (record u { last_touch_slot = now }, a)
unfolding vest_warming_to_realized
vest_again u a now tau = ground arith

IsCurrent-same : {m n j k : ℕ} → m ≡ n → j ≡ k → IsCurrent n k → IsCurrent m j
IsCurrent-same e f c = rw (e, f) c

-- A user with nothing to catch up with, touched in this slot already.
materialize_user-current :
    (u : UserPortfolio) (a : Accums) (p : MaterializeParams)
    → IsCurrent u.equity_scale_snap a.equity_scale
    → IsCurrent u.warming_scale_snap a.warming_scale
    → let v = record u { last_touch_slot = p.now_slot } in materialize_user v a p ≡ some (v, a)
unfolding materialize_user
materialize_user-current u a p c d =
    let v = record u { last_touch_slot = p.now_slot } in
    rw
      (
        reconcile_equity-current v a p.burn_principal_first c,
        reconcile_warming-current v a d,
        vest_again u a p.now_slot p.tau_slots,
      )
      refl

-- A user that was reconciled is left as it is by another reconciliation at the same slot, and so are
-- the aggregates.
pub materialize_user-idempotent :
    (u : UserPortfolio) (a : Accums) (p : MaterializeParams) (u' : UserPortfolio) (a' : Accums)
    → materialize_user u a p ≡ some (u', a')
    → materialize_user u' a' p ≡ some (u', a')
unfolding materialize_user
materialize_user-idempotent u a p u' a' h =
    let (u1, e1, h1) = >>=-eq-some (reconcile_equity u a p.burn_principal_first) _ h in
    let (u2, e2, h2) = >>=-eq-some (reconcile_warming u1 a) _ h1 in
    let (out, e3, h3) = >>=-eq-some (vest_warming_to_realized u2 a p.now_slot p.tau_slots) _ h2 in
    let c1 = reconcile_equity-IsCurrent u a p.burn_principal_first e1 in
    let c2 = reconcile_warming-IsCurrent u1 a e2 in
    let s = vest-scales u2 a p.now_slot p.tau_slots e3 in
    let e : (record out.0 { last_touch_slot = p.now_slot }, out.1) ≡ (u', a') = cc in
    subst (λ (x : UserPortfolio × Accums). materialize_user x.0 x.1 p ≡ some x) e
      (materialize_user-current out.0 out.1 p (IsCurrent-same (s.0 ∙ c2.1) s.2 c1)
        (IsCurrent-same s.1 s.3 c2.0))
