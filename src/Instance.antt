-- ===== src/Instance.antt =====
-- The package instance: the service instances that the agent knows.
pub mod Repo
