-- ===== src/Qan.antt =====
-- The package qan: intervals of the slow log and reports of query classes.
pub mod SlowlogIter
pub mod Report
pub mod PerfschemaWorker
pub mod Analyzer
pub mod Manager
