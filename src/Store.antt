-- ===== src/Store.antt =====
-- internal/store: the publication store over ClickHouse.
pub mod Allocator
pub mod Points
pub mod Types
pub mod Resolve
pub mod Inserts
pub mod Tables
pub mod Publication
pub mod Recovery
pub mod Rollback
