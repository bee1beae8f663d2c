-- ===== src/Upload.antt =====
-- The upload client: src/lib/upload-policy.ts, src/lib/head-check.ts and
-- src/lib/upload-queue.ts.
pub mod Head
pub mod Policy
pub mod Pump
mod Tests
