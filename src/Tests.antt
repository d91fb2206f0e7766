-- ===== src/Tests.antt =====
-- Runs at concrete inputs, and the theorems at inputs that meet their hypotheses.
mod Agreement
mod Budget
mod Pipeline
mod Publication
mod Rollback
mod Sink
mod Store
mod Syncer
