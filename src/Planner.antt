-- ===== src/Planner.antt =====
-- planner.py: the assets that a target should have, the changes that lead there, and the plan.
mod Desired
mod Changes
mod Service
pub mod Laws
unfoldable pub use Desired.*
unfoldable pub use Changes.*
unfoldable pub use Service.*
