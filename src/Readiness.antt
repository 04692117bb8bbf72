-- ===== src/Readiness.antt =====
-- web/readiness.py: the Markdown evidence and the gates that are read from it.
pub mod Markdown
pub mod Gates
pub mod Splits
pub mod Blocks
pub mod Laws
