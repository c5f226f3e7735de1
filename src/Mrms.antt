-- ===== src/Mrms.antt =====
-- The package mrms: the monitor that tells its subscribers of a restart of MySQL.
pub mod Monitor
