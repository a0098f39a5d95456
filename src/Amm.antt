-- ===== src/Amm.antt =====
-- The constant-product market maker: crates/amm_model, which programs/amm re-exports.
pub mod Quote
pub mod Curve
pub mod Buy
pub mod Sell
mod Tests
