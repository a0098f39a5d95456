-- ===== src/Router/Position/Margin.antt =====
-- What programs/router/src/state/position_details.rs makes of a position that shrinks.
use native.Mathlib.Nat.{div-eq_of_lt, div-le_of_le-mul, mul-le-mul, le_refl, mul-zero}
use barista_dex_perc.Prelude.{
  ℕ, suc, ◌+◌, ◌-◌, ◌*◌, ◌/◌, ◌^◌, ◌≤◌, ◌<◌, min, ◌≡◌, ◌⊎◌, refl, ap, ◌∙◌, true, some, inl, inr,
  arith, Bool-cases, ltb, leb, if◌then◌else◌,
}
use barista_dex_perc.Prelude.Int.{ℤ, pos, negsuc, pos_part, neg_part, ltb_ℤ, neg_ℤ, ◌+ℤ◌, ◌-ℤ◌}
use barista_dex_perc.Math.{i64_max, sub_u128}
use barista_dex_perc.Router.Position.{
  PositionDetails, abs_i64, as_u128, fit_u128, remaining_qty, margin_to_release, reduce_position,
}

-- The size of an integer.
abbrev pub size : ℤ → ℕ
size x = pos_part x + neg_part x

remaining_long : (n c : ℕ) → 0 < n → c ≤ n → remaining_qty (pos n) c ≡ pos (n - c)
unfolding remaining_qty ◌-ℤ◌
remaining_long n c h le = ground arith

remaining_short : (n c : ℕ) → c ≤ n → remaining_qty (negsuc n) c ≡ negsuc (n - c)
unfolding remaining_qty ◌+ℤ◌
remaining_short n c le = ground arith

remaining_none : (n c : ℕ) → c ≡ suc n → remaining_qty (negsuc n) c ≡ pos 0
unfolding remaining_qty ◌+ℤ◌
remaining_none n c h = ground arith

remaining_whole : (n c : ℕ) → c ≡ n → remaining_qty (pos n) c ≡ pos 0
unfolding remaining_qty ◌+ℤ◌ ◌-ℤ◌
remaining_whole n c h = ground arith

release_all : (held c : ℕ) → margin_to_release held (pos 0) c ≡ some held
unfolding margin_to_release
release_all held c = ground arith

release_long :
    (held r c release : ℕ)
    → 0 < r
    → margin_to_release held (pos r) c ≡ some release
    → release ≡ held * (c * 1_000_000 / (r + c)) / 1_000_000
unfolding margin_to_release fit_u128 ◌+ℤ◌ as_u128
release_long held r c release h e = ground arith

-- The size that the code computes for a short, read as a u128.
short_size :
    (r c : ℕ)
    → r + c ≤ i64_max
    → as_u128 (negsuc r +ℤ (if ltb_ℤ (pos 0) (negsuc r) then pos c else neg_ℤ (pos c)))
      ≡ 2 ^ 128 - 1 - (r + c)
unfolding ◌+ℤ◌ as_u128
short_size r c h = ground arith

release_short : (held r c : ℕ) → r + c ≤ i64_max → margin_to_release held (negsuc r) c ≡ some 0
unfolding margin_to_release fit_u128
release_short held r c h =
    let none_of_it : c * 1_000_000 / (2 ^ 128 - 1 - (r + c)) ≡ 0 = div-eq_of_lt (omega arith) in
    let some_size : ltb 0 (2 ^ 128 - 1 - (r + c)) ≡ true = ground arith in
    rw (short_size r c h, some_size, none_of_it, mul-zero held) (ground arith)

-- What a reduction went through.
record Steps (p : PositionDetails) (c : ℕ) (p' : PositionDetails) (r : ℤ) (m : ℕ) : Type 0 where
  fits : size p.total_qty ≤ i64_max
  left : r ≡ remaining_qty p.total_qty c
  release : margin_to_release p.margin_held r c ≡ some m
  quantity : p'.total_qty ≡ r
  held : p'.margin_held ≡ p.margin_held - m

reduce_position-Steps :
    (p : PositionDetails) (exit qty fee ts : ℤ) (p' : PositionDetails) (pnl r : ℤ) (m : ℕ)
    → reduce_position p exit qty fee ts ≡ some (p', pnl, r, m)
    → Steps p (min (size qty) (size p.total_qty)) p' r m
unfolding reduce_position sub_u128 abs_i64
reduce_position-Steps p exit qty fee ts p' pnl r m h = ground arith

-- A reduction of a position of a size by another, which leaves a quantity and releases margin.
pub record Reduced (held : ℕ) (t r : ℤ) (c m : ℕ) : Type 0 where
  pub size_left : size r + c ≡ size t
  pub side_kept :
      (r ≡ pos 0) ⊎ ((1 ≤ pos_part t) × (1 ≤ pos_part r)) ⊎ ((1 ≤ neg_part t) × (1 ≤ neg_part r))
  pub within : m ≤ held
  pub all_back : (m ≡ held) ⊎ (1 ≤ size r)

-- The share of the held margin is no more than all of it.
share-le : (held c n : ℕ) → c ≤ n → held * (c * 1_000_000 / n) / 1_000_000 ≤ held
share-le held c n h =
    let b : c * 1_000_000 / n ≤ 1_000_000 = div-le_of_le-mul n (mul-le-mul h (le_refl 1_000_000)) in
    div-le_of_le-mul 1_000_000 (omega (arith, mul-le-mul (le_refl held) b))

Reduced-all :
    (held : ℕ) (t : ℤ) (c m : ℕ)
    → c ≡ size t
    → margin_to_release held (pos 0) c ≡ some m
    → Reduced held t (pos 0) c m
Reduced-all held t c m e h =
    let all : m ≡ held = ground (arith, release_all held c) in
    record {
      size_left = omega arith;
      side_kept = inl refl;
      within = omega arith;
      all_back = inl all;
    }

Reduced-long :
    (held n c m : ℕ)
    → c < n
    → margin_to_release held (pos (n - c)) c ≡ some m
    → Reduced held (pos n) (pos (n - c)) c m
Reduced-long held n c m le h =
    let e = release_long held (n - c) c m (omega arith) h in
    let s = share-le held c (n - c + c) (omega arith) in
    record {
      size_left = omega arith;
      side_kept = inr (inl (omega arith));
      within = omega (arith, e, s);
      all_back = inr (omega arith);
    }

Reduced-short :
    (held n c m : ℕ)
    → c ≤ n
    → suc n ≤ i64_max
    → margin_to_release held (negsuc (n - c)) c ≡ some m
    → Reduced held (negsuc n) (negsuc (n - c)) c m
Reduced-short held n c m le fits h =
    let none_back : m ≡ 0 = ground (arith, release_short held (n - c) c (omega arith)) in
    record {
      size_left = omega arith;
      side_kept = inr (inr (omega arith));
      within = omega arith;
      all_back = inr (omega arith);
    }

margin-Reduced :
    (held : ℕ) (t : ℤ) (c m : ℕ)
    → c ≤ size t
    → size t ≤ i64_max
    → margin_to_release held (remaining_qty t c) c ≡ some m
    → Reduced held t (remaining_qty t c) c m
margin-Reduced held (pos n) c m le fits h = elim (Bool-cases (ltb c n)) [
  | inl part ↦
      let e = remaining_long n c (ground arith) (omega arith) in
      rw e (Reduced-long held n c m (ground arith) (rw e at h))
  | inr all ↦
      let e : remaining_qty (pos n) c ≡ pos 0 = remaining_whole n c (ground arith) in
      rw e (Reduced-all held (pos n) c m (ground arith) (rw e at h))
]
margin-Reduced held (negsuc n) c m le fits h = elim (Bool-cases (leb c n)) [
  | inl part ↦
      let e = remaining_short n c (ground arith) in
      rw e (Reduced-short held n c m (ground arith) (omega arith) (rw e at h))
  | inr all ↦
      let e : remaining_qty (negsuc n) c ≡ pos 0 = remaining_none n c (ground arith) in
      rw e (Reduced-all held (negsuc n) c m (ground arith) (rw e at h))
]

-- A reduction that ends takes the smaller of the two sizes off the position, never turns it to the
-- other side, and releases margin that was held, all of it if nothing is left; what is released and
-- what is still held make up what was held.
pub reduce_position-Reduced :
    (p : PositionDetails) (exit qty fee ts : ℤ) (p' : PositionDetails) (pnl r : ℤ) (m : ℕ)
    → reduce_position p exit qty fee ts ≡ some (p', pnl, r, m)
    → (p'.total_qty ≡ r)
      × (p'.margin_held + m ≡ p.margin_held)
      × Reduced p.margin_held p.total_qty r (min (size qty) (size p.total_qty)) m
reduce_position-Reduced p exit qty fee ts p' pnl r m h =
    let s = reduce_position-Steps p exit qty fee ts p' pnl r m h in
    let c = min (size qty) (size p.total_qty) in
    let d =
      margin-Reduced p.margin_held p.total_qty c m (omega arith) s.fits (rw s.left at s.release) in
    (s.quantity, omega (arith, s.held, d.within), rw s.left d)

short_none :
    (held : ℕ) (t : ℤ) (c : ℕ) (r : ℤ) (m : ℕ)
    → c < neg_part t
    → size t ≤ i64_max
    → r ≡ remaining_qty t c
    → margin_to_release held r c ≡ some m
    → (m ≡ 0) × (neg_part r + c ≡ neg_part t)
short_none held (pos n) c r m le fits e h = absurd (omega arith)
short_none held (negsuc n) c r m le fits e h =
    let e' : r ≡ negsuc (n - c) = e ∙ remaining_short n c (omega arith) in
    (
      ground (arith, release_short held (n - c) c (omega arith), rw e' at h),
      omega (arith, ap neg_part e'),
    )

-- A partial close of a short position releases no margin at all, whatever part of it is closed.
pub reduce_position_short :
    (p : PositionDetails) (exit qty fee ts : ℤ) (p' : PositionDetails) (pnl r : ℤ) (m : ℕ)
    → size qty < neg_part p.total_qty
    → reduce_position p exit qty fee ts ≡ some (p', pnl, r, m)
    → (m ≡ 0) × (p'.margin_held ≡ p.margin_held) × (neg_part r + size qty ≡ neg_part p.total_qty)
reduce_position_short p exit qty fee ts p' pnl r m part h =
    let s = reduce_position-Steps p exit qty fee ts p' pnl r m h in
    let c = min (size qty) (size p.total_qty) in
    let n = short_none p.margin_held p.total_qty c r m (omega arith) s.fits s.left s.release in
    (n.0, omega (arith, s.held, n), omega (arith, n))
