-- ===== src/Codec.antt =====
-- crates/gems-codec: the field directory of an entity's body.
pub mod Bytes
pub mod Cursor
pub mod Decodes
pub mod Fields
pub mod Tag
pub mod Builder
pub mod Reader
pub mod Redact
pub mod Search
mod Runs
