-- ===== src/Config.antt =====
-- The package config: the files and their locks, the host, and the servers.
pub mod Host
pub mod Locks
pub mod Servers
pub mod Atomic
