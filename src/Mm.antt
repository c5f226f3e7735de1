-- ===== src/Mm.antt =====
-- The package mm: statistics of metrics, and the aggregator that reports them at each interval.
pub mod Float
pub mod Stats
pub mod Aggregator
pub mod System
pub mod Manager
