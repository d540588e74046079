-- ===== src/Catalog.antt =====
-- crates/gems-catalog: the entities that the store keeps.
pub mod Kind
pub mod Header
pub mod HeaderCodec
pub mod HeaderTrip
pub mod Policy
pub mod Truncate
pub mod Util
pub mod Bodies
pub mod PolicyCodec
mod Runs
