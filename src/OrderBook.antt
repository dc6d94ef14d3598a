-- ===== src/OrderBook.antt =====
-- src/orderbook.rs: a price-time priority order book.
pub mod Types
pub mod Release
pub mod Levels
pub mod Cancel
pub mod Match
pub mod Active
pub mod ReleaseBounds
pub mod WellFormed
pub mod Removal
pub mod Removed
pub mod Updated
pub mod Pushed
pub mod Best
pub mod Fills
pub mod Passed
pub mod Report
pub mod Step
pub mod Loop
pub mod Execute
pub mod Trading
pub mod BatchFill
mod Tests
