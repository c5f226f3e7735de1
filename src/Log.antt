-- ===== src/Log.antt =====
-- The package log: the relay of log entries to the API.
pub mod Relay
pub mod Manager
