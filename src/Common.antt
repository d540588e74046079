-- ===== src/Common.antt =====
-- crates/gems-common: checksums, keyed hashes and base64url.
pub mod Bits
pub mod Crc32c
pub mod Sha256
pub mod Padding
pub mod Hmac
pub mod Base64Url
mod Runs
