-- ===== src/Lib.antt =====
-- A verification library for the perpetuals exchange of this repository: the arithmetic and the
-- state machines that its programs rest on, translated from the Rust and executable.
--
-- How the program is put together. Users deposit collateral with the router program
-- (programs/router), which keeps a portfolio per user, a vault per mint, an insurance fund and a
-- registry, and executes trades on matchers: order books (programs/slab) and constant-product pools
-- (programs/amm). The crate crates/model_safety is the pure core that the router calls for its
-- arithmetic and mirrors for its policies; crates/amm_model is the arithmetic of the pools, which
-- programs/amm re-exports.
--
-- Which file models what.
--   Math             crates/model_safety/src/math.rs: saturating u128 and i128 arithmetic
--   Math/Bounds      the same operations in plain numbers
--   Safety           crates/model_safety/src: State (state.rs), Helpers (helpers.rs, warmup.rs),
--                    Transitions (transitions.rs), and Step, the transitions as one machine
--   Crisis           crates/model_safety/src/crisis: Ratio (amount.rs), Accums (accums.rs), Haircut
--                    (haircut.rs) and Materialize (materialize.rs)
--   Buckets          crates/model_safety/src/lp_bucket.rs
--   Warmup           crates/model_safety/src/adaptive_warmup.rs
--   Amm              crates/amm_model/src: Quote (lib.rs, math.rs)
--   Router           programs/router/src: Vault (state/vault.rs), Insurance (state/insurance.rs),
--                    LpBucket (state/lp_bucket.rs), Portfolio (state/portfolio.rs), PnlVesting
--                    (state/pnl_vesting.rs), Registry (state/registry.rs), Position
--                    (state/position_details.rs), Funds, Order and CrossSlab
--                    (instructions/execute_cross_slab.rs), Liquidation (liquidation), LiquidateUser
--                    (instructions/liquidate_user.rs), Cash (instructions/deposit.rs, withdraw.rs),
--                    LpExit (instructions/burn_lp_shares.rs, cancel_lp_orders.rs) and Chooser
--                    (chooser.rs); SlabVenue, the slab as the venue of a trade (programs/slab/src/entrypoint.rs)
--   Keeper           keeper/src: health.rs, and of priority_queue.rs, config.rs and main.rs the zones
--                    of health
--   Common           programs/common/src/math.rs
--   Matcher          programs/common/src: header.rs, quote_cache.rs, fill_receipt.rs; Slab, of
--                    programs/slab/src (instructions/commit_fill.rs), and Pool, of programs/amm/src
--                    (state.rs, instructions.rs)
--   Prelude          names of the libraries, lists, integers and results that the others share
-- The files beside these hold proofs, and each Tests file holds runs on concrete values. A function
-- has the name that it has in Rust; the pieces that a long function is cut into have names of their
-- own and are composed in the function's order.
--
-- Conventions. A u128, a u64 and the like are natural numbers, an i128 and an i64 are integers.
-- Saturating operations are written out, and so is a cut to fewer bits. Arithmetic that is not
-- saturating is checked in the release profile (overflow-checks in Cargo.toml), so where it can
-- leave its type the model aborts, by `abort` of Outcome or by `none` where there is no error
-- beside it. A method that changes its object returns the new object; an error leaves the object
-- as it was. An array with a count of its places in use is the list of these. Sums over users are
-- folds in the order of the list. No definition uses fuel: every loop of the modelled code goes
-- over a list. A public key is a number, and a derived address is told apart by its seeds. Whether
-- an account signs or can hold a receipt is an argument, and so is what a program that the router
-- calls does: the receipt that the fill of a slab leaves, the lamports after a transfer, and whether
-- the system program creates an account, for one that no program has and for one that the router has
-- closed in the same instruction. An order starts with a position's account that no instruction before
-- it in the same transaction has closed.
--
-- A trade (Router/CrossSlab) puts the parts together in the order of the code: the catch-up of the
-- user's PnL, the fill, the position (Router/Position), the lamports (Router/Funds), the exposures
-- (Router/Portfolio), the fund's fees (Router/Insurance) and the margin. A liquidation plans
-- (Router/Liquidation) and runs such a trade.
--
-- Not modelled: account parsing, program-derived addresses, cross-program calls and token transfers
-- (the host's), the helpers of execute_cross_slab.rs that nothing calls, the clients, the keeper's
-- network code and the scripts.
pub mod Prelude
pub mod Math
pub mod Safety
pub mod Buckets
pub mod Router
pub mod Amm
pub mod Crisis
pub mod Common
pub mod Keeper
pub mod Matcher
pub mod Warmup
