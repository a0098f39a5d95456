-- ===== src/Crisis.antt =====
-- Crisis resolution: crates/model_safety/src/crisis. A Q64.64 number is the natural number of its
-- 128 bits.
pub mod Ratio
pub mod Limbs
pub mod Accums
pub mod Haircut
pub mod Funds
pub mod Waterfall
pub mod Solvency
pub mod Reconcile
pub mod Vesting
pub mod Share
mod Tests
pub mod Materialize
