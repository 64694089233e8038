-- ===== src/Fuse.antt =====
-- The parts of crates/lchfs-fuse that are modelled.
pub mod Acl
