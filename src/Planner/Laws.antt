-- ===== src/Planner/Laws.antt =====
-- What the planner guarantees.
pub mod Selection
pub mod Convergence
