-- ===== src/Safety/Socialize.antt =====
-- What `socialize_losses` of crates/model_safety/src/transitions.rs takes, and from whom.

use barista_dex_perc.Prelude.{
  ℕ, ◌+◌, ◌≤◌, ◌≡◌, refl, true, List, [], ◌∷◌, arith, sum_by, All, ltb, ◌==◌, Bool, if◌then◌else◌,
}
use barista_dex_perc.Prelude.Int.{pos, pos_part, neg_part, ltb_ℤ}
use barista_dex_perc.Math.{min_u128, mul_u128, div_u128}
use barista_dex_perc.Math.Bounds.{
  sub_u128_lem, clamp_pos_i128_lem, min_u128_lem, u128_to_i128_lem, sub_i128_parts,
}
use barista_dex_perc.Safety.State.{Account, State}
use barista_dex_perc.Safety.Helpers.{
  effective_positive_pnl, sum_effective_winners, all_pairs, principals_unchanged,
  winners_only_haircut,
}
use barista_dex_perc.Safety.Transitions.{take_share, haircut_users, socialize_losses}
use barista_dex_perc.Safety.Conservation.{principal_of, pos_pnl_of, PnlInRange, IsSound}

-- The share of the source: rounded down, and cut to what remains and to what the user has.
abbrev share_of : ℕ → ℕ → ℕ → ℕ → ℕ
share_of t h r eff = min_u128 (min_u128 (if ltb 0 t then div_u128 (mul_u128 eff h) t else 0) r) eff

pub effective-le : (u : Account) → PnlInRange u → effective_positive_pnl u ≤ pos_part u.pnl_ledger
unfolding effective_positive_pnl
effective-le u r = omega (arith, sub_u128_lem, clamp_pos_i128_lem u.pnl_ledger)

-- One user gives up what the haircut and the vault lose, and nothing else.
record Takes (r v : ℕ) (u : Account) (out : Account × ℕ × ℕ) : Type 0 where
  falls : out.1 ≤ r
  from_vault : out.2 + r ≡ v + out.1
  from_pnl : pos_part out.0.pnl_ledger + r ≡ pos_part u.pnl_ledger + out.1
  losses_kept : neg_part out.0.pnl_ledger ≡ neg_part u.pnl_ledger
  principal_kept : out.0.principal ≡ u.principal

take_share-Takes :
    (t h r v : ℕ) (u : Account)
    → PnlInRange u
    → pos_part u.pnl_ledger ≤ v
    → Takes r v u (take_share t h r v u)
unfolding take_share
take_share-Takes t h r v u range le =
    let eff = effective_positive_pnl u in
    let share = share_of t h r eff in
    ground (
      arith,
      effective-le u range,
      min_u128_lem (if ltb 0 t then div_u128 (mul_u128 eff h) t else 0) r,
      min_u128_lem (min_u128 (if ltb 0 t then div_u128 (mul_u128 eff h) t else 0) r) eff,
      u128_to_i128_lem share,
      sub_u128_lem r share,
      sub_u128_lem v share,
      sub_i128_parts u.pnl_ledger share range,
    )

-- The loop gives up what the haircut and the vault lose.
pub record Spreads (r v : ℕ) (us : List Account) (out : List Account × ℕ × ℕ) : Type 0 where
  pub falls : out.1 ≤ r
  pub from_vault : out.2 + r ≡ v + out.1
  pub from_pnl : sum_by pos_pnl_of out.0 + r ≡ sum_by pos_pnl_of us + out.1
  pub ranges : All PnlInRange out.0
  pub principals_kept : sum_by principal_of out.0 ≡ sum_by principal_of us
  pub each_principal : all_pairs (λ a b. a.principal == b.principal) us out.0 ≡ true
  pub winners :
      all_pairs
        (λ a b. if ltb_ℤ b.pnl_ledger a.pnl_ledger then ltb_ℤ (pos 0) a.pnl_ledger else true)
        us
        out.0
      ≡ true

pub haircut_users-Spreads :
    (t h r v : ℕ) (us : List Account)
    → All PnlInRange us
    → sum_by pos_pnl_of us ≤ v
    → Spreads r v us (haircut_users t h r v us)
unfolding haircut_users all_pairs
haircut_users-Spreads t h r v [] range le = record {
  falls = omega arith;
  from_vault = omega arith;
  from_pnl = omega arith;
  ranges = tt;
  principals_kept = refl;
  each_principal = refl;
  winners = refl;
}
haircut_users-Spreads t h r v (u ∷ us) range le =
    let out = take_share t h r v u in
    let one = take_share-Takes t h r v u range.0 (omega arith) in
    let rest =
      haircut_users-Spreads t h out.1 out.2 us range.1
        (omega (arith, one.falls, one.from_vault, one.from_pnl)) in
    record {
      falls = omega (arith, one.falls, rest.falls);
      from_vault = omega (arith, one.from_vault, rest.from_vault);
      from_pnl = omega (arith, one.from_pnl, rest.from_pnl);
      ranges = (omega (arith, one.falls, one.from_pnl, one.losses_kept, range.0), rest.ranges);
      principals_kept = omega (arith, one.principal_kept, rest.principals_kept);
      each_principal = ground (arith, rest.each_principal, one.principal_kept);
      winners = ground (arith, rest.winners, one.losses_kept, one.from_pnl, one.falls);
    }

-- What users give up to cover a deficit, as the fall of all positive PnL.
abbrev pub positive_pnl : State → ℕ
positive_pnl s = sum_by pos_pnl_of s.users

pub record Socializes (s : State) (deficit : ℕ) (s' : State) : Type 0 where
  pub sound : IsSound s'
  pub within_deficit : positive_pnl s ≤ positive_pnl s' + deficit
  pub within_effective : positive_pnl s ≤ positive_pnl s' + sum_effective_winners s
  pub no_gain : positive_pnl s' ≤ positive_pnl s
  pub vault_follows : s'.vault + positive_pnl s ≡ s.vault + positive_pnl s'
  pub principal_kept : sum_by principal_of s'.users ≡ sum_by principal_of s.users
  pub principals : principals_unchanged s s' ≡ true
  pub insurance_kept : s'.insurance_fund ≡ s.insurance_fund
  pub winners : winners_only_haircut s s' ≡ true

all_pairs_same :
    (p : Account → Account → Bool) (us : List Account)
    → ((u : Account) → p u u ≡ true)
    → all_pairs p us us ≡ true
unfolding all_pairs
all_pairs_same p [] h = refl
all_pairs_same p (u ∷ us) h = rw (h u) (all_pairs_same p us h)

same-Socializes : (s : State) (d : ℕ) → IsSound s → Socializes s d s
unfolding winners_only_haircut principals_unchanged
same-Socializes s d v = record {
  sound = v;
  within_deficit = omega arith;
  within_effective = omega arith;
  no_gain = omega arith;
  vault_follows = refl;
  principal_kept = refl;
  principals = all_pairs_same _ s.users (λ u. ground arith);
  insurance_kept = refl;
  winners = all_pairs_same _ s.users (λ u. ground arith);
}

spread-Socializes :
    (s : State) (d t h : ℕ)
    → IsSound s
    → s.fees_outstanding ≤ sum_by principal_of s.users + s.insurance_fund
    → h ≤ d
    → h ≤ sum_effective_winners s
    → Socializes s d (record s {
      users = (haircut_users t h h s.vault s.users).0;
      vault = (haircut_users t h h s.vault s.users).2;
    })
unfolding winners_only_haircut principals_unchanged
spread-Socializes s d t h v fees le le' =
    let sp = haircut_users-Spreads t h h s.vault s.users v.ranges (omega (arith, v.balanced)) in
    record {
      sound = record {
        ranges = sp.ranges;
        fits = omega (arith, v.fits, sp.principals_kept, sp.from_pnl, sp.falls);
        balanced = omega (arith, v.balanced, sp.principals_kept, sp.from_pnl, sp.from_vault);
      };
      within_deficit = omega (arith, sp.from_pnl);
      within_effective = omega (arith, sp.from_pnl);
      no_gain = omega (arith, sp.from_pnl, sp.falls);
      vault_follows = omega (arith, sp.from_pnl, sp.from_vault);
      principal_kept = sp.principals_kept;
      principals = sp.each_principal;
      insurance_kept = refl;
      winners = sp.winners;
    }

-- Socialising a deficit keeps the books, takes no more than the deficit and no more than the
-- effective winnings, all of it out of the vault, leaves the principal of each account and the insurance alone, and cuts
-- only accounts with positive PnL. The fees must not exceed principals and insurance.
pub socialize_losses-Socializes :
    (s : State) (deficit : ℕ)
    → IsSound s
    → s.fees_outstanding ≤ sum_by principal_of s.users + s.insurance_fund
    → Socializes s deficit (socialize_losses s deficit)
unfolding socialize_losses
socialize_losses-Socializes s d v fees =
    let t = sum_effective_winners s in
    let h = min_u128 d t in
    ground (arith, same-Socializes s d v, spread-Socializes s d t h v fees, min_u128_lem d t)
