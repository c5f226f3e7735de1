-- ===== src/Pct.antt =====
-- The package pct: what the services share.
pub mod Backoff
pub mod Status
pub mod Units
