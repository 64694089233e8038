-- ===== src/Format.antt =====
-- The on-disk schema, crates/lchfs-format.
pub mod Objects
pub mod Superblock
pub mod Sealed
