-- ===== src/Service.antt =====
-- service.py: the application of an approved plan and its rollback. Every collaborator (the
-- repository, the ledger, the adapter, the snapshot store, the clock, the id factory) is an oracle
-- whose answer may depend on all that happened before; a run leaves the trace of its calls.
pub mod Env
pub mod Checks
pub mod Deploy
pub mod Rollback
pub mod Laws
