-- ===== src/Queue.antt =====
-- The play queue: src/lib/queue-model.ts, queue-engine.ts, queue-strategies.ts, queue-view.ts,
-- queue-store.ts, reorder.ts and the keys of track-format.ts.
pub mod Model
pub mod Reorder
pub mod Camelot
pub mod Strategies
pub mod Engine
pub mod Regenerate
pub mod Drawer
pub mod Memory
mod Samples
mod Tests
