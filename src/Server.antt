-- ===== src/Server.antt =====
-- foxess_local_cloud/server.py: what the application and a session keep.
pub mod PowerLimit
pub mod Staleness
pub mod Upstream
pub mod Faults
pub mod Session
pub mod Support
pub mod Control
pub mod Handle
pub mod Relay
