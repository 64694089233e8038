-- ===== src/Crypto.antt =====
-- The parts of crates/lchfs-crypto that are modelled.
pub mod Padme
