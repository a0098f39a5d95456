-- ===== src/Warmup/Tests.antt =====
-- A run of crates/model_safety/src/adaptive_warmup.rs: half of the gains is unlocked, and a slot passes.
use barista_dex_perc.Prelude.{◌≡◌, some, arith, ◌^◌}
use barista_dex_perc.Prelude.Int.{ℤ, pos, ◌≤ℤ◌}
use barista_dex_perc.Warmup.{unlocked_update}
use barista_dex_perc.Warmup.Unlock.{IsShare, unlocked_update-rises}

abbrev half : ℤ
half = pos (2 ^ 31)

unlocked_update-rises_example :
    (p' : ℤ) × (unlocked_update half (pos 5_494_186) (pos 1_717_986_918) ≡ some p')
    × IsShare p'
    × (half ≤ℤ p')
unlocked_update-rises_example =
    unlocked_update-rises half 5_494_186 1_717_986_918
      (record { nonneg = omega arith; within = omega arith }) (omega arith)
