-- ===== src/Worker.antt =====
-- The Cloudflare workers: src/workers.
pub mod Consumer
mod Tests
