-- ===== src/Crisis/Share.antt =====
-- A user's share of a haircut in crates/model_safety/src/crisis/materialize.rs, for balances that are
-- not negative.
use native.Mathlib.Nat.{div-le_of_le-mul}
use barista_dex_perc.Prelude.{
  ℕ, ◌+◌, ◌-◌, ◌*◌, ◌/◌, ◌^◌, ◌≤◌, ◌<◌, ◌≡◌, ◌⊎◌, refl, ap, ◌∙◌, Bool, true, false, some, arith,
  ◌==◌, max, min,
}
use barista_dex_perc.Prelude.Int.{ℤ, pos}
use barista_dex_perc.Math.{i128_max, add_i128, sub_i128}
use barista_dex_perc.Crisis.Ratio.{one, mul_scaled}
use barista_dex_perc.Crisis.Limbs.{mul_scaled-eq, scaled-le}
use barista_dex_perc.Crisis.Accums.{Accums, UserPortfolio}
use barista_dex_perc.Crisis.Funds.{add_pos, sub_pos, least_pos}
use barista_dex_perc.Crisis.Materialize.{scale_delta, burn_equity, apply_equity_scale_delta}

-- A user with equity that is not negative and a snapshot above the global scale.
pub record Lags (u : UserPortfolio) (a : Accums) (p r : ℕ) : Type 0 where
  pub principal : u.principal ≡ pos p
  pub realized : u.realized ≡ pos r
  pub fits : p + r ≤ i128_max
  pub behind : a.equity_scale < u.equity_scale_snap
  pub fraction : u.equity_scale_snap ≤ one

-- Which balance pays first.
abbrev pub PaysFirst : Bool → ℕ → ℕ → ℕ → ℕ → Type 0
PaysFirst true p r p' r' = (r' ≡ r) ⊎ (p' ≡ 0)
PaysFirst false p r p' r' = (p' ≡ p) ⊎ (r' ≡ 0)

-- The user after the haircut.
pub record Shares (u : UserPortfolio) (a : Accums) (first : Bool) (p r : ℕ) (u' : UserPortfolio)
    : Type 0 where
  pub p' : ℕ
  pub r' : ℕ
  pub principal : u'.principal ≡ pos p'
  pub realized : u'.realized ≡ pos r'
  pub kept : p' + r' ≡ (p + r) * (a.equity_scale * 2 ^ 64 / u.equity_scale_snap) / 2 ^ 64
  pub order : PaysFirst first p r p' r'
  pub warming : u'.warming ≡ u.warming
  pub snapshot : u'.equity_scale_snap ≡ a.equity_scale
  pub epoch : u'.last_epoch_applied ≡ a.epoch

scale_delta-eq : (n d : ℕ) → n < d → d ≤ one → scale_delta n d ≡ n * 2 ^ 64 / d
unfolding scale_delta
scale_delta-eq n d h k = ground arith

delta-le : (n d : ℕ) → n < d → n * 2 ^ 64 / d ≤ one
delta-le n d h = div-le_of_le-mul d {m = n * 2 ^ 64} {n = one} (omega (arith, h))

burn_pos :
    (u : UserPortfolio) (p r b : ℕ) (first : Bool)
    → u.principal ≡ pos p
    → u.realized ≡ pos r
    → p + r ≤ i128_max
    → b ≤ p + r
    → (p' : ℕ) × (r' : ℕ) × (burn_equity u (pos b) first
        ≡ record u { principal = pos p'; realized = pos r' })
      × (p' + r' + b ≡ p + r)
      × PaysFirst first p r p' r'
unfolding burn_equity
burn_pos u p r b true ep er h k = (
  p - min b p,
  r - (b - min b p),
  ground (
    arith,
    least_pos b p,
    sub_pos b (min b p) (omega arith) (omega arith),
    sub_pos p (min b p) (omega arith) (omega arith),
    sub_pos r (b - min b p) (omega arith) (omega arith),
  ),
  omega arith,
  ground arith,
)
burn_pos u p r b false ep er h k = (
  p - (b - min b r),
  r - min b r,
  ground (
    arith,
    least_pos b r,
    sub_pos b (min b r) (omega arith) (omega arith),
    sub_pos r (min b r) (omega arith) (omega arith),
    sub_pos p (b - min b r) (omega arith) (omega arith),
  ),
  omega arith,
  ground arith,
)

apply_equity-eq :
    (u : UserPortfolio) (a : Accums) (first : Bool) (pre post : ℤ)
    → (a.equity_scale == max u.equity_scale_snap 1) ≡ false
    → add_i128 u.principal u.realized ≡ pre
    → mul_scaled (scale_delta a.equity_scale (max u.equity_scale_snap 1)) pre ≡ some post
    → apply_equity_scale_delta u a first
      ≡ some (record (burn_equity u (sub_i128 pre post) first) {
        equity_scale_snap = a.equity_scale;
        last_epoch_applied = a.epoch;
      })
unfolding apply_equity_scale_delta
apply_equity-eq u a first pre post ne e m = rw (ne, e, m) refl

-- A user whose snapshot lies above the global scale keeps, of equity that is not negative, the
-- rounded share of the scales. Realised PnL pays before principal, or after it if the parameter
-- says so; warming PnL stays, and the snapshot catches up.
pub apply_equity-Shares :
    (u : UserPortfolio) (a : Accums) (first : Bool) (p r : ℕ)
    → Lags u a p r
    → (u' : UserPortfolio) × (apply_equity_scale_delta u a first ≡ some u')
      × Shares u a first p r u'
apply_equity-Shares u a first p r l =
    let d = a.equity_scale * 2 ^ 64 / u.equity_scale_snap in
    let m : max u.equity_scale_snap 1 ≡ u.equity_scale_snap = omega (arith, l.behind) in
    let ne : (a.equity_scale == max u.equity_scale_snap 1) ≡ false = ground (arith, l.behind) in
    let e = scale_delta-eq a.equity_scale u.equity_scale_snap l.behind l.fraction in
    let t : add_i128 u.principal u.realized ≡ pos (p + r) =
      rw (l.principal, l.realized) (add_pos p r l.fits) in
    let q : mul_scaled (scale_delta a.equity_scale (max u.equity_scale_snap 1)) (pos (p + r))
        ≡ some (pos ((p + r) * d / 2 ^ 64)) =
      rw (m, e)
        (mul_scaled-eq d (p + r) (delta-le a.equity_scale u.equity_scale_snap l.behind) l.fits) in
    let le = scaled-le (p + r) d (delta-le a.equity_scale u.equity_scale_snap l.behind) in
    let post = (p + r) * d / 2 ^ 64 in
    let s = sub_pos (p + r) post le l.fits in
    let (p', r', b, total, order) =
      burn_pos u p r (p + r - post) first l.principal l.realized l.fits (omega arith) in
    (
      record u {
        principal = pos p';
        realized = pos r';
        equity_scale_snap = a.equity_scale;
        last_epoch_applied = a.epoch;
      },
      apply_equity-eq u a first (pos (p + r)) (pos post) ne t q
          ∙ ap
              (λ (v : UserPortfolio).
                some
                  (record v { equity_scale_snap = a.equity_scale; last_epoch_applied = a.epoch }))
              (ap (λ x. burn_equity u x first) s ∙ b),
      record {
        p' = p';
        r' = r';
        principal = refl;
        realized = refl;
        kept = omega (arith, total, le);
        order = order;
        warming = refl;
        snapshot = refl;
        epoch = refl;
      },
    )
