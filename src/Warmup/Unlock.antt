-- ===== src/Warmup/Unlock.antt =====
-- The unlocked share of crates/model_safety/src/adaptive_warmup.rs over an update.
use native.Mathlib.Nat.{mul-le-mul, le_of_lt, le_refl}
use barista_dex_perc.Prelude.{
  ℕ, ◌-◌, ◌*◌, ◌/◌, ◌^◌, ◌≤◌, ◌<◌, ◌≡◌, refl, some, inl, inr, arith, Bool-cases,
}
use barista_dex_perc.Prelude.Int.{ℤ, pos, negsuc, ◌≤ℤ◌, ltb_ℤ, leb_ℤ, ◌*ℤ◌, ◌/ℤ◌, ◌+ℤ◌, ◌-ℤ◌}
use barista_dex_perc.Math.{i128_max, fit_i128}
use barista_dex_perc.Warmup.{
  q1, q32, qclamp01, qmul, qdiv, exp_neg_approx, unlocked_update_single, unlocked_update,
}

-- A share of the whole.
pub record IsShare (x : ℤ) : Type 0 where
  pub nonneg : pos 0 ≤ℤ x
  pub within : x ≤ℤ q1

qclamp01-IsShare : (x : ℤ) → IsShare (qclamp01 x)
unfolding qclamp01
qclamp01-IsShare x = ground arith

qclamp01-share : (x : ℤ) → IsShare x → qclamp01 x ≡ x
unfolding qclamp01
qclamp01-share x s = ground arith

pub qmul_pos : (a b : ℕ) → a * b ≤ i128_max → qmul (pos a) (pos b) ≡ some (pos (a * b / 2 ^ 32))
unfolding qmul fit_i128 ◌*ℤ◌ ◌/ℤ◌
qmul_pos a b h = ground arith

exp_neg-IsShare : (x : ℤ) → (b : ℤ) × (exp_neg_approx x ≡ some b) × IsShare b
unfolding exp_neg_approx
exp_neg-IsShare (negsuc n) = (q1, ground arith, omega arith)
exp_neg-IsShare (pos n) = elim (Bool-cases (leb_ℤ (pos n) (pos 0))) [
  | inl y ↦ (q1, rw y refl, omega arith)
  | inr o ↦ elim (Bool-cases (leb_ℤ q1 (pos n))) [
    | inl y ↦ (pos (2 ^ 32 / 3), rw (o, y) refl, omega arith)
    | inr small ↦
        let below : n < 2 ^ 32 = ground arith in
        let x2 = n * n / 2 ^ 32 in
        let h1 = mul-le-mul (le_of_lt below) (le_of_lt below) in
        let b2 : x2 ≤ 2 ^ 32 = omega (arith, h1) in
        let h2 = mul-le-mul b2 (le_of_lt below) in
        let v = qclamp01 (
          q1
          -ℤ pos n
          +ℤ pos (2 ^ 31 * x2 / 2 ^ 32)
          -ℤ pos (2 ^ 32 / 6 * (x2 * n / 2 ^ 32) / 2 ^ 32)) in
        (
          v,
          rw
              (
                o,
                small,
                qmul_pos n n (omega (arith, h1)),
                qmul_pos x2 n (omega (arith, h2)),
                qmul_pos (2 ^ 31) x2 (omega arith),
                qmul_pos (2 ^ 32 / 6) (x2 * n / 2 ^ 32) (omega (arith, h2)),
              )
              refl,
          qclamp01-IsShare _,
        )
  ]
]

share_pos : (x : ℤ) → IsShare x → (n : ℕ) × (x ≡ pos n) × (n ≤ 2 ^ 32)
share_pos (pos n) s = (n, refl, omega (arith, s.within))
share_pos (negsuc n) s = absurd (omega (arith, s.nonneg))

pub -ℤ_pos : (a b : ℕ) → b ≤ a → pos a -ℤ pos b ≡ pos (a - b)
unfolding ◌-ℤ◌
-ℤ_pos a b h = ground arith

unlocked_single-rises :
    (p x : ℤ)
    → IsShare p
    → (p' : ℤ) × (unlocked_update_single p x ≡ some p') × IsShare p' × (p ≤ℤ p')
unfolding unlocked_update_single
unlocked_single-rises p x s =
    let (b, e, sb) = exp_neg-IsShare x in
    let (n, en, bn) = share_pos b sb in
    let (k, ek, bk) = share_pos p s in
    let locked = (2 ^ 32 - k) * n / 2 ^ 32 in
    let h = mul-le-mul {n₁ = 2 ^ 32 - k} (le_refl _) bn in
    let least : locked ≤ 2 ^ 32 - k = omega (arith, h) in
    (
      pos (2 ^ 32 - locked),
      rw
          (
            e,
            en,
            qclamp01-share p s,
            ek,
            -ℤ_pos (2 ^ 32) k bk,
            qmul_pos (2 ^ 32 - k) n (omega (arith, h)),
            -ℤ_pos (2 ^ 32) locked (omega (arith, least)),
            qclamp01-share (pos (2 ^ 32 - locked)) (omega arith),
          )
          refl,
      omega arith,
      rw ek (omega (arith, least)),
    )

halved :
    (x : ℕ) → x * 2 ^ 32 ≤ i128_max → qdiv (pos x) (q32 (pos 2)) ≡ some (pos (x * 2 ^ 32 / 2 ^ 33))
unfolding qdiv q32 fit_i128 ◌*ℤ◌ ◌/ℤ◌
halved x h = ground arith

-- One update of the unlocked share, at a rate and a length of a slot that are not negative and whose
-- product fits an i128, always comes to a value, which is a share of the whole again and is no less
-- than before.
pub unlocked_update-rises :
    (p : ℤ) (l k : ℕ)
    → IsShare p
    → l * k ≤ i128_max
    → (p' : ℤ) × (unlocked_update p (pos l) (pos k) ≡ some p') × IsShare p' × (p ≤ℤ p')
unfolding unlocked_update
unlocked_update-rises p l k s fits =
    let x = l * k / 2 ^ 32 in
    let single = unlocked_single-rises p (pos x) s in
    elim (Bool-cases (leb_ℤ (pos l) (pos 0))) [
      | inl y ↦ (p, rw y refl, s, omega arith)
      | inr n ↦ elim (Bool-cases (ltb_ℤ (pos (2 ^ 32 / 2)) (pos x))) [
        | inl y ↦
            let half = pos (x * 2 ^ 32 / 2 ^ 33) in
            let (a, ea, sa, la) = unlocked_single-rises p half s in
            let (b, eb, sb, lb) = unlocked_single-rises a half sa in
            (
              b,
              rw (n, qmul_pos l k fits, y, halved x (omega arith), ea, eb) refl,
              sb,
              omega (arith, la, lb),
            )
        | inr m ↦ let (a, ea, sa, la) = single in (a, rw (n, qmul_pos l k fits, m, ea) refl, sa, la)
      ]
    ]
