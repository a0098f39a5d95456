-- ===== src/Warmup.antt =====
-- crates/model_safety/src/adaptive_warmup.rs: the share of vested PnL that may be withdrawn. `none` is a
-- panic: i128 arithmetic that leaves its range, or a division that does.
pub mod Unlock
mod Tests
use barista_dex_perc.Prelude.{ℕ, ◌*◌, ◌/◌, ◌^◌, Bool, Option, none, some, ◌&&◌, ◌||◌, if◌then◌else◌}
use barista_dex_perc.Prelude.Int.{ℤ, pos, ◌+ℤ◌, ◌-ℤ◌, ◌*ℤ◌, ◌/ℤ◌, ltb_ℤ, leb_ℤ, ◌==ℤ◌}
use barista_dex_perc.Prelude.Options.{◌>>=◌}
use barista_dex_perc.Math.{i128_max, fit_i128}

-- `F`
abbrev pub q_scale : ℤ
q_scale = pos (2 ^ 32)

-- `q32`, of an i64, which fits.
unfoldable pub q32 : ℤ → ℤ
q32 x = x *ℤ q_scale

abbrev pub q1 : ℤ
q1 = q_scale

unfoldable pub qclamp01 : ℤ → ℤ
qclamp01 x = if ltb_ℤ x (pos 0) then pos 0 else if ltb_ℤ q1 x then q1 else x

unfoldable pub qmul : ℤ → ℤ → Option ℤ
qmul a b = do product ← fit_i128 (a *ℤ b); some (product /ℤ q_scale)

unfoldable pub qdiv : ℤ → ℤ → Option ℤ
qdiv a b =
    if b ==ℤ pos 0
    then some (pos (i128_max / 2))
    else do scaled ← fit_i128 (a *ℤ q_scale); fit_i128 (scaled /ℤ b)

pub record AdaptiveWarmupConfig : Type 0 where
  pub t90_fast_secs : ℤ
  pub s_max : ℤ
  pub m_max : ℤ
  pub hysteresis : ℤ
  pub w_1h : ℤ
  pub w_5m : ℤ
  pub slot_secs : ℤ
  pub ln10 : ℤ
  pub alpha_d_1h : ℤ
  pub alpha_d_5m : ℤ
  pub alpha_s_slow : ℤ
  pub alpha_s_fast : ℤ
  pub freeze_s : ℤ

-- `qdiv(q32(n), q32(d))`, for positive numbers that are small enough.
abbrev share : ℕ → ℕ → ℤ
share n d = pos (n * 2 ^ 32 / d)

abbrev pub default_warmup : AdaptiveWarmupConfig
default_warmup = record {
  t90_fast_secs = pos (1800 * 2 ^ 32);
  s_max = share 3 10;
  m_max = pos (10 * 2 ^ 32);
  hysteresis = share 3 10;
  w_1h = share 3 5;
  w_5m = share 2 5;
  slot_secs = share 4 10;
  ln10 = share 2_302_585_092 1_000_000_000;
  alpha_d_1h = share 1 9000;
  alpha_d_5m = share 1 750;
  alpha_s_slow = share 1 1000;
  alpha_s_fast = share 1 100;
  freeze_s = share 1 4;
}

pub record AdaptiveWarmupState : Type 0 where
  pub d_ema_1h : ℤ
  pub d_ema_5m : ℤ
  pub s_ema_1h : ℤ
  pub s_ema_5m : ℤ
  pub last_t90_secs : ℤ
  pub unlocked_frac : ℤ

abbrev pub new_warmup_state : AdaptiveWarmupState
new_warmup_state = record {
  d_ema_1h = pos 0;
  d_ema_5m = pos 0;
  s_ema_1h = pos 0;
  s_ema_5m = pos 0;
  last_t90_secs = pos 0;
  unlocked_frac = pos 0;
}

unfoldable pub ema_update : ℤ → ℤ → ℤ → Option ℤ
ema_update ema sample alpha = do
  delta ← fit_i128 (sample -ℤ ema)
  moved ← qmul alpha delta
  fit_i128 (ema +ℤ moved)

unfoldable pub drain_s : ℤ → ℤ → Option ℤ
drain_s d_now d_ref = if leb_ℤ d_ref (pos 0) then some (pos 0) else do
  ratio ← qdiv d_now d_ref
  s ← fit_i128 (q1 -ℤ ratio)
  some (if ltb_ℤ (pos 0) s then qclamp01 s else pos 0)

unfoldable pub smoothstep : ℤ → Option ℤ
smoothstep x = do
  let r = qclamp01 x
  r2 ← qmul r r
  twice ← qmul (q32 (pos 2)) r
  slope ← fit_i128 (q32 (pos 3) -ℤ twice)
  qmul r2 slope

unfoldable pub t90_from_s : ℤ → ℤ → AdaptiveWarmupConfig → Option ℤ
t90_from_s state_last_t90 s_star cfg = do
  ratio ← qdiv s_star cfg.s_max
  curve ← smoothstep (qclamp01 ratio)
  m_minus1 ← fit_i128 (cfg.m_max -ℤ q1)
  extra ← qmul m_minus1 curve
  m ← fit_i128 (q1 +ℤ extra)
  target ← qmul cfg.t90_fast_secs m
  kept ← fit_i128 (q1 -ℤ cfg.hysteresis)
  down_cap ← qmul state_last_t90 kept
  some (if ltb_ℤ target down_cap then down_cap else target)

unfoldable pub exp_neg_approx : ℤ → Option ℤ
exp_neg_approx x = if leb_ℤ x (pos 0) then some q1 else if leb_ℤ q1 x then some (share 1 3) else do
  x2 ← qmul x x
  x3 ← qmul x2 x
  second ← qmul (share 1 2) x2
  third ← qmul (share 1 6) x3
  -- Sums of four terms of at most one each.
  some (qclamp01 (q1 -ℤ x +ℤ second -ℤ third))

unfoldable pub unlocked_update_single : ℤ → ℤ → Option ℤ
unlocked_update_single p_prev x = do
  beta ← exp_neg_approx x
  locked ← qmul (q1 -ℤ qclamp01 p_prev) beta
  some (qclamp01 (q1 -ℤ locked))

unfoldable pub unlocked_update : ℤ → ℤ → ℤ → Option ℤ
unlocked_update p_prev lambda_q slot_secs_q = if leb_ℤ lambda_q (pos 0) then some p_prev else do
  x ← qmul lambda_q slot_secs_q
  if ltb_ℤ (share 1 2) x
      then (do
        x_half ← qdiv x (q32 (pos 2))
        p_mid ← unlocked_update_single p_prev x_half
        unlocked_update_single p_mid x_half)
      else unlocked_update_single p_prev x

-- A drain goes up only.
unfoldable pub ratchet : ℤ → ℤ → ℤ
ratchet before next = if ltb_ℤ before next then next else before

-- The drains and the averages, steps 1 to 3 of `step`.
unfoldable pub track_drain :
    AdaptiveWarmupState → AdaptiveWarmupConfig → ℤ → Option AdaptiveWarmupState
track_drain st cfg d_now = do
  d_1h ← ema_update st.d_ema_1h d_now cfg.alpha_d_1h
  d_5m ← ema_update st.d_ema_5m d_now cfg.alpha_d_5m
  s_raw_1h ← drain_s d_now d_1h
  s_raw_5m ← drain_s d_now d_5m
  s1_next ← ema_update st.s_ema_1h s_raw_1h cfg.alpha_s_slow
  s5_next ← ema_update st.s_ema_5m s_raw_5m cfg.alpha_s_fast
  some (record st {
    d_ema_1h = d_1h;
    d_ema_5m = d_5m;
    s_ema_1h = ratchet st.s_ema_1h s1_next;
    s_ema_5m = ratchet st.s_ema_5m s5_next;
  })

-- The combined drain, step 4.
unfoldable pub drain_star : AdaptiveWarmupState → AdaptiveWarmupConfig → Option ℤ
drain_star st cfg = do
  slow ← qmul cfg.w_1h st.s_ema_1h
  fast ← qmul cfg.w_5m st.s_ema_5m
  sum ← fit_i128 (slow +ℤ fast)
  some (qclamp01 sum)

unfoldable pub is_frozen : AdaptiveWarmupConfig → ℤ → Bool → Bool → Bool
is_frozen cfg s_star oracle_gap_large insurance_util_high =
    leb_ℤ cfg.freeze_s s_star && (oracle_gap_large || insurance_util_high)

unfoldable pub step :
    AdaptiveWarmupState → AdaptiveWarmupConfig → ℤ → Bool → Bool → Option AdaptiveWarmupState
step st cfg d_now_q oracle_gap_large insurance_util_high = do
  tracked ← track_drain st cfg d_now_q
  s_star ← drain_star tracked cfg
  t90 ← t90_from_s tracked.last_t90_secs s_star cfg
  lambda ←
      (if is_frozen cfg s_star oracle_gap_large insurance_util_high
        then some (pos 0)
        else qdiv cfg.ln10 t90)
  unlocked ← unlocked_update tracked.unlocked_frac lambda cfg.slot_secs
  some (record tracked { last_t90_secs = t90; unlocked_frac = unlocked })
