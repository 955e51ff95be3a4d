-- ===== src/Firmware.antt =====
-- foxess_local_cloud/firmware.py: the firmware transfers carried inside TCP/14431 frames.
pub mod Variant
pub mod Metadata
pub mod Capture
pub mod Chunks
pub mod Upload
