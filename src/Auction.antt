-- ===== src/Auction.antt =====
-- src/batch_auction.rs.
pub mod Types
pub mod Allocate
pub mod Sides
pub mod Candidate
pub mod Clear
pub mod Fits
pub mod Fill
pub mod ProRata
pub mod Split
pub mod Group
pub mod Eligible
pub mod OneSide
pub mod Balanced
pub mod Rounds
pub mod Validate
pub mod Ranking
pub mod Best
pub mod Outcome
pub mod Prices
pub mod Optimal
pub mod Listing
mod Tests
