-- ===== src/Safety.antt =====
-- The pure safety model of crates/model_safety, which the router's code refers to.
pub mod State
pub mod Helpers
pub mod Transitions
pub mod Step
pub mod Principal
pub mod Conservation
pub mod Books
pub mod Socialize
pub mod Rounding
pub mod Liquidation
pub mod Margin
pub mod Breaches
pub mod History
mod Tests
