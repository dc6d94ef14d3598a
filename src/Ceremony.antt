-- ===== src/Ceremony.antt =====
-- src/dkg_ceremony.rs: the ceremony in which the validators generate a threshold key.
pub mod Types
pub mod Record
pub mod Journal
pub mod Coordinator
pub mod Rounds
pub mod FirstRound
pub mod SecondRound
pub mod Closing
pub mod Contract
pub mod Canonical
pub mod Memory
mod Formats
mod SampleCodec
mod Sample
pub mod Evidence
pub mod Keeps
pub mod Commits
pub mod Aborts
pub mod Round1
pub mod Round2
pub mod Finish
pub mod Calls
pub mod Recovery
pub mod History
pub mod Life
pub mod Tombstones
pub mod Deadline
pub mod Certificates
pub mod Again
pub mod Peers
mod Tests
