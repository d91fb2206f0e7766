-- ===== src/Syncer.antt =====
-- internal/syncer: from agreed events to publication batches.
pub mod Blocks
pub mod Batcher
pub mod Intersections
pub mod Decode
pub mod StoreSink
