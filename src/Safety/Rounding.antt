-- ===== src/Safety/Rounding.antt =====
-- How much of a deficit the rounded shares of `socialize_losses` leave uncovered.
use native.Mathlib.Nat.{
  lt-mul-div-succ, mul-add, mul-sub, mul-le-mul_left, le_of_mul-le-mul_left, div-le_of_le-mul,
}
use barista_dex_perc.Prelude.{
  ℕ, ◌+◌, ◌-◌, ◌*◌, ◌/◌, ◌≤◌, ◌<◌, min, ◌≡◌, ◌⊎◌, refl, ap, ◌∙◌, true, false, inl, inr, List, [],
  ◌∷◌, foldl, arith, length, sum_by, All, ltb, ◌==◌, Bool-cases, lt→ltb, ==_iff,
}
use barista_dex_perc.Prelude.Int.{pos, leb_ℤ}
use barista_dex_perc.Math.{
  u128_max, add_u128, sub_u128, clamp_pos_i128, min_u128, mul_u128, div_u128,
}
use barista_dex_perc.Math.Bounds.{sub_u128_lem, min_u128_lem}
use barista_dex_perc.Safety.State.{Account, State}
use barista_dex_perc.Safety.Helpers.{effective_positive_pnl, sum_effective_winners}
use barista_dex_perc.Safety.Transitions.{take_share, haircut_users, socialize_losses}
use barista_dex_perc.Safety.Conservation.{
  principal_of, pos_pnl_of, PnlInRange, IsSound, foldl-add_u128,
}
use barista_dex_perc.Safety.Socialize.{positive_pnl, effective-le, haircut_users-Spreads}

-- The rounded quotient misses less than one divisor.
quotient_bound :
    (t eff h : ℕ)
    → 0 < t
    → h ≤ t
    → eff * h ≤ u128_max
    → (eff * h ≤ t * div_u128 (mul_u128 eff h) t + t) × (div_u128 (mul_u128 eff h) t ≤ eff)
unfolding div_u128 mul_u128
quotient_bound t eff h p le fits =
    let e : min (eff * h) u128_max ≡ eff * h = omega arith in
    let b = lt-mul-div-succ (eff * h) {b = t} p in
    let c = div-le_of_le-mul t {m = eff * h} {n = eff} (grind arith) in
    let z : (t == 0) ≡ false = ground arith in
    rw (e, z) (omega (arith, b, mul-add t (eff * h / t) 1), c)

-- A share that is the least of the quotient, of what remains and of what the user has.
least_bound :
    (t q r eff h s : ℕ)
    → q ≤ eff
    → eff * h ≤ t * q + t
    → s ≤ q
    → s ≤ r
    → (s ≡ q) ⊎ ((s ≡ r) ⊎ (s ≡ eff))
    → (r - s ≡ 0) ⊎ (t * (r - s) + eff * h ≤ t * r + t)
least_bound t q r eff h s a b c d (inl e) =
    inr (omega (arith, mul-sub t r s, ap (λ (n : ℕ). t * n) e, mul-le-mul_left t d))
least_bound t q r eff h s a b c d (inr (inl e)) = inl (omega arith)
least_bound t q r eff h s a b c d (inr (inr e)) = inr (
    omega (
      arith,
      mul-sub t r s,
      ap (λ (n : ℕ). t * n) (let x : s ≡ q = omega arith in x),
      mul-le-mul_left t d,
    ))

effective-loser : (u : Account) → leb_ℤ u.pnl_ledger (pos 0) ≡ true → effective_positive_pnl u ≡ 0
unfolding effective_positive_pnl clamp_pos_i128
effective-loser u h = ground (arith, sub_u128_lem 0 u.reserved_pnl)

-- After one user either the haircut is used up, or the share is the quotient.
take_share_bound :
    (t h r v : ℕ) (u : Account)
    → 0 < t
    → h ≤ t
    → effective_positive_pnl u * h ≤ u128_max
    → ((take_share t h r v u).1 ≡ 0)
      ⊎ (t * (take_share t h r v u).1 + effective_positive_pnl u * h ≤ t * r + t)
unfolding take_share
take_share_bound t h r v u p le fits =
    let eff = effective_positive_pnl u in
    let q = div_u128 (mul_u128 eff h) t in
    let pt : ltb 0 t ≡ true = lt→ltb 0 t p in
    let b = quotient_bound t eff h p le fits in
    elim (Bool-cases (leb_ℤ u.pnl_ledger (pos 0))) [
      | inl l ↦ rw l (inr (omega (arith, ap (λ (n : ℕ). n * h) (effective-loser u l))))
      | inr w ↦ rw w (elim (Bool-cases (eff == 0)) [
        | inl z ↦ rw z (inr (omega (arith, ap (λ (n : ℕ). n * h) ((==_iff eff 0).0 z))))
        | inr nz ↦
            rw (nz, pt, sub_u128_lem)
              (least_bound t q r eff h _ b.1 b.0 (omega (arith, min_u128_lem))
                (omega (arith, min_u128_lem)) (grind (arith, min_u128_lem)))
      ])
    ]

take_share_zero : (t h v : ℕ) (u : Account) → (take_share t h 0 v u).1 ≡ 0
unfolding take_share sub_u128
take_share_zero t h v u = ground arith

-- Once nothing remains the loop takes nothing more.
haircut_users_zero : (t h v : ℕ) (us : List Account) → (haircut_users t h 0 v us).1 ≡ 0
unfolding haircut_users
haircut_users_zero t h v [] = refl
haircut_users_zero t h v (u ∷ us) =
    rw (take_share_zero t h v u) (haircut_users_zero t h (take_share t h 0 v u).2 us)

haircut_users_bound :
    (t h r v : ℕ) (us : List Account)
    → 0 < t
    → h ≤ t
    → All (λ u. effective_positive_pnl u * h ≤ u128_max) us
    → ((haircut_users t h r v us).1 ≡ 0)
      ⊎ (t * (haircut_users t h r v us).1 + sum_by effective_positive_pnl us * h
          ≤ t * r + t * length us)
unfolding haircut_users
haircut_users_bound t h r v [] p le fits = inr (omega arith)
haircut_users_bound t h r v (u ∷ us) p le fits =
    let out = take_share t h r v u in
    elim (take_share_bound t h r v u p le fits.0) [
      | inl done ↦ inl (rw done (haircut_users_zero t h out.2 us))
      | inr one ↦ elim (haircut_users_bound t h out.1 out.2 us p le fits.1) [
        | inl done ↦ inl done
        | inr rest ↦ inr (omega arith)
      ]
    ]

sum_effective-eq :
    (us : List Account)
    → All PnlInRange us
    → sum_by effective_positive_pnl us ≤ sum_by pos_pnl_of us
sum_effective-eq [] h = omega arith
sum_effective-eq (u ∷ us) h = omega (arith, effective-le u h.0, sum_effective-eq us h.1)

leftover :
    (s : State) (h : ℕ)
    → IsSound s
    → 0 < sum_effective_winners s
    → h ≤ sum_effective_winners s
    → All (λ u. effective_positive_pnl u * h ≤ u128_max) s.users
    → (haircut_users (sum_effective_winners s) h h s.vault s.users).1 ≤ length s.users
unfolding sum_effective_winners
leftover s h v p le fits =
    let t = foldl (λ acc u. add_u128 acc (effective_positive_pnl u)) 0 s.users in
    let e : t ≡ sum_by effective_positive_pnl s.users =
      foldl-add_u128 effective_positive_pnl s.users 0
        (omega (arith, sum_effective-eq s.users v.ranges, v.fits))
      ∙ omega arith in
    elim (haircut_users_bound t h h s.vault s.users p le fits) [
      | inl z ↦ omega (arith, z)
      | inr b ↦ le_of_mul-le-mul_left {k = t} (omega (arith, b, ap (λ (n : ℕ). n * h) e)) p
    ]

-- An authorised round of socialisation leaves uncovered, of a deficit that the winners can bear,
-- at most one unit for each user, where no product of a share overflows.
pub socialize_losses_covers :
    (s : State) (deficit : ℕ)
    → IsSound s
    → s.fees_outstanding ≤ sum_by principal_of s.users + s.insurance_fund
    → s.authorized_router ≡ true
    → deficit ≤ sum_effective_winners s
    → All (λ u. effective_positive_pnl u * deficit ≤ u128_max) s.users
    → positive_pnl (socialize_losses s deficit) + deficit ≤ positive_pnl s + length s.users
unfolding socialize_losses sum_effective_winners
socialize_losses_covers s d v fees auth le fits =
    let t = sum_effective_winners s in
    let sp = haircut_users-Spreads t d d s.vault s.users v.ranges (omega (arith, v.balanced)) in
    elim (Bool-cases (d == 0)) [
      | inl z ↦ rw (auth, z) (omega (arith, (==_iff d 0).0 z))
      | inr nz ↦
          let p : 0 < t = ground arith in
          let tz : (t == 0) ≡ false = ground arith in
          let m : min_u128 d t ≡ d = omega (arith, min_u128_lem d t) in
          rw (auth, nz, tz, m) (omega (arith, leftover s d v p le fits, sp.from_pnl))
    ]
