-- ===== src/Pipeline.antt =====
-- internal/pipeline: the bounded concurrency between agreement and publication.
pub mod Budget
pub mod Ordered
