-- ===== src/Match.antt =====
-- The comparison of fingerprints: src/lib/ber.ts.
pub mod Ber
pub mod Popcount
mod Tests
