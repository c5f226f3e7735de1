-- ===== src/Data.antt =====
-- The package data: the spool of data files and their way to the API.
pub mod Sender
pub mod Stats
pub mod Spooler
pub mod Manager
