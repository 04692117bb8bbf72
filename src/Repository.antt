-- ===== src/Repository.antt =====
-- repository.py: the registry documents and the immutable records of plans and approvals.
pub mod Snapshot
pub mod Records
