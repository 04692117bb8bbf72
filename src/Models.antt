-- ===== src/Models.antt =====
-- models.py: the documents that the control plane exchanges and stores, the validators that relate
-- their fields, and `model_dump(mode="json")` of those that enter a digest.
mod Entities
mod Json
mod Dump
mod Validators
unfoldable pub use Entities.*
pub use Json.*
unfoldable pub use Dump.*
unfoldable pub use Validators.*
