-- ===== src/Service/Laws.antt =====
-- What the deployment service guarantees about the adapter and the ledger.
pub mod Effects
pub mod Authorised
pub mod Entries
pub mod Outcome
pub mod Recorded
