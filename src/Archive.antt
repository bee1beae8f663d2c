-- ===== src/Archive.antt =====
-- The archive of a crate: src/lib/zip.ts and src/lib/crate-zip.ts.
pub mod Xor
pub mod Bytes
pub mod Crc
pub mod Headers
pub mod Writer
pub mod Directory
pub mod Names
pub mod Plan
mod Tests
