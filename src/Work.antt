-- ===== src/Work.antt =====
-- The causal work graph: services/work_service.py and its tables.
pub mod Graph
pub mod Items
pub mod Claims
pub mod Gate
pub mod Collector
pub mod Conflicts
mod Tests
