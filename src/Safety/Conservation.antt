-- ===== src/Safety/Conservation.antt =====
-- Conservation of funds: helpers.rs (`conservation_ok`) against transitions.rs.
use barista_dex_perc.Prelude.{
  ℕ, ◌+◌, ◌-◌, ◌≤◌, ◌≡◌, refl, ap, ◌∙◌, true, List, [], ◌∷◌, foldl, arith, sum_by, All, ◌==◌,
}
use barista_dex_perc.Prelude.Int.{pos_part}
use barista_dex_perc.Math.{u128_max, add_u128, clamp_pos_i128}
use barista_dex_perc.Math.Bounds.{IsI128, add_u128_lem, sub_u128_lem, clamp_pos_i128_lem}
use barista_dex_perc.Safety.State.{Account, State}
use barista_dex_perc.Safety.Helpers.{sum_principal, sum_pos_pnl, conservation_ok}

abbrev pub principal_of : Account → ℕ
principal_of u = u.principal

abbrev pub pos_pnl_of : Account → ℕ
pos_pnl_of u = pos_part u.pnl_ledger

abbrev pub PnlInRange : Account → Type 0
PnlInRange u = IsI128 u.pnl_ledger

-- What the users and the insurance fund own, without saturation.
abbrev pub total : State → ℕ
total s = sum_by principal_of s.users + s.insurance_fund + sum_by pos_pnl_of s.users

-- The vault holds what is owned, less the outstanding fees, and nothing saturates.
pub record IsSound (s : State) : Type 0 where
  pub ranges : All PnlInRange s.users
  pub fits : total s ≤ u128_max
  pub balanced : s.vault + s.fees_outstanding ≡ total s

pub foldl-add_u128 :
    (f : Account → ℕ) (us : List Account) (a : ℕ)
    → a + sum_by f us ≤ u128_max
    → foldl (λ acc u. add_u128 acc (f u)) a us ≡ a + sum_by f us
foldl-add_u128 f [] a h = omega arith
foldl-add_u128 f (u ∷ us) a h =
    foldl-add_u128 f us (add_u128 a (f u)) (omega (arith, add_u128_lem a (f u)))
    ∙ omega (arith, add_u128_lem a (f u))

sum_clamped :
    (us : List Account)
    → All PnlInRange us
    → sum_by (λ u. clamp_pos_i128 u.pnl_ledger) us ≡ sum_by pos_pnl_of us
sum_clamped [] h = refl
sum_clamped (u ∷ us) h = omega (arith, clamp_pos_i128_lem u.pnl_ledger h.0.0, sum_clamped us h.1)

sum_principal-eq :
    (us : List Account)
    → sum_by principal_of us ≤ u128_max
    → sum_principal us ≡ sum_by principal_of us
unfolding sum_principal
sum_principal-eq us h = foldl-add_u128 principal_of us 0 (omega arith) ∙ omega arith

sum_pos_pnl-eq :
    (us : List Account)
    → All PnlInRange us
    → sum_by pos_pnl_of us ≤ u128_max
    → sum_pos_pnl us ≡ sum_by pos_pnl_of us
unfolding sum_pos_pnl
sum_pos_pnl-eq us r h =
    foldl-add_u128 (λ u. clamp_pos_i128 u.pnl_ledger) us 0 (omega (arith, sum_clamped us r))
    ∙ omega (arith, sum_clamped us r)

-- The checker of the source agrees with the equation, where nothing saturates.
pub conservation_ok-eq :
    (s : State)
    → All PnlInRange s.users
    → total s ≤ u128_max
    → conservation_ok s ≡ (s.vault == total s - s.fees_outstanding)
unfolding conservation_ok
conservation_ok-eq s r h =
    ap (λ (n : ℕ). s.vault == n)
      (omega (
        arith,
        sum_principal-eq s.users,
        sum_pos_pnl-eq s.users r,
        add_u128_lem (sum_principal s.users) s.insurance_fund,
        add_u128_lem (add_u128 (sum_principal s.users) s.insurance_fund) (sum_pos_pnl s.users),
        sub_u128_lem
            (add_u128 (add_u128 (sum_principal s.users) s.insurance_fund) (sum_pos_pnl s.users))
            s.fees_outstanding,
      ))

pub IsSound-conservation_ok : (s : State) → IsSound s → conservation_ok s ≡ true
IsSound-conservation_ok s v = conservation_ok-eq s v.ranges v.fits ∙ ground (arith, v.balanced)
