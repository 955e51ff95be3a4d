-- ===== src/Protocol.antt =====
-- foxess_local_cloud/protocol.py
pub mod Crc
pub mod Frame
pub mod Extract
pub mod Bootstrap
pub mod Modbus
pub mod Mesh
pub mod Info
