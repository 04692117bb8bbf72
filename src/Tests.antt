-- ===== src/Tests.antt =====
-- Runs of the theorems at concrete inputs.
mod Data
mod Ledgers
mod Documents
mod Deployments
mod Web
mod Runtime
mod Stores
mod Reports
