-- ===== src/Inventory/Discovery.antt =====
-- runtime_inventory/discovery.py: what the inventory is made of.
mod Values
mod Targets
mod Ignored
mod Scan
mod Opened
mod Walk
mod Digest
mod Aggregate
mod Run
pub mod Laws
unfoldable pub use Values.*
unfoldable pub use Targets.*
unfoldable pub use Ignored.*
unfoldable pub use Opened.*
unfoldable pub use Walk.*
unfoldable pub use Digest.*
unfoldable pub use Scan.*
unfoldable pub use Aggregate.*
unfoldable pub use Run.*
