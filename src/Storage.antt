-- ===== src/Storage.antt =====
-- crates/gems-storage: block classes, the allocation bitmap of an extent, and the allocator.
pub mod BlockClass
pub mod Classes
pub mod Bitmap
pub mod Bits
pub mod Slots
pub mod Pointer
pub mod Manager
pub mod Access
pub mod Growth
pub mod Allocation
pub mod View
pub mod Fresh
pub mod Allocator
mod Runs
