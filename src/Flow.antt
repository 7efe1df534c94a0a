-- ===== src/Flow.antt =====
-- flow/: what the tracker reads of a connection and reports, and the kernel settings that it changes.
pub mod Tracker
pub mod Sysctl
