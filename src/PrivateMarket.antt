-- ===== src/PrivateMarket.antt =====
-- src/private_market.rs: the adapter between the decimal inputs of a market and the batch auction.
pub mod Types
pub mod Units
pub mod Gcd
pub mod Fractions
pub mod Aligned
pub mod Exact
pub mod Orders
pub mod Rounding
pub mod Pairing
pub mod Shares
pub mod Progress
pub mod Fills
pub mod Enough
pub mod Settlement
pub mod ById
pub mod Clearing
pub mod Ordered
pub mod Cleared
mod Tests
