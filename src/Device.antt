-- ===== src/Device.antt =====
-- The parts of crates/lchfs-device that are modelled.
pub mod Layout
pub mod Keyring
pub mod Zones
