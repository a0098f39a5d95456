-- ===== src/Router.antt =====
-- The router program, programs/router/src, by its parts.
pub mod Vault
pub mod LpBucket
pub mod Portfolio
pub mod PnlVesting
pub mod Registry
pub mod Position
pub mod Insurance
pub mod Funds
pub mod Order
pub mod CrossSlab
pub mod Liquidation
pub mod Chooser
pub mod SlabVenue
pub mod LiquidateUser
pub mod Cash
pub mod LpExit
mod Tests
