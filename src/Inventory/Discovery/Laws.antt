-- ===== src/Inventory/Discovery/Laws.antt =====
-- What holds of the inventory that is found.
pub mod Groups
pub mod Grouping
pub mod Status
pub mod Walking
pub mod Complete
pub mod Hashing
pub mod Whole
pub mod Ignoring
