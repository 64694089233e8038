-- ===== src/Store.antt =====
-- The storage engine, crates/lchfs-store.
pub mod Attributes
pub mod Namespace
pub mod Superblock
pub mod Content
pub mod Membership
pub mod Vdevs
