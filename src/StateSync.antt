-- ===== src/StateSync.antt =====
-- src/state_sync.rs: state snapshots for CometBFT state sync.
pub mod Types
pub mod Metadata
pub mod Export
pub mod Import
pub mod Chunks
pub mod Created
pub mod Delivery
pub mod RoundTrip
pub mod Verified
mod Tests
