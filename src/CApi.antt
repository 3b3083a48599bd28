-- ===== src/CApi.antt =====
-- src/pyDE1/de1/c_api.py: the packets that are exchanged with the DE1.
pub mod Fixed
pub mod FwVersion
pub mod Temperature
pub mod ShotSettings
pub mod State
pub mod Levels
pub mod Frame
pub mod Header
pub mod FrameWrite
pub mod Sample
pub mod Mmr
pub mod Firmware
pub mod Calibration
