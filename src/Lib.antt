-- ===== src/Lib.antt =====
-- A verification library for lchfs, a log-structured, content-hashed file system.
--
-- The engine (crates/lchfs-store) keeps a directory tree and the working contents of files, cuts
-- contents into chunks (crates/lchfs-chunk), and commits a root in a ring of superblock slots
-- (crates/lchfs-format) on devices of a fixed layout (crates/lchfs-device). crates/lchfs-fuse puts
-- it behind FUSE, and crates/lchfs-crypto encrypts records.
--
-- Common: lists, maps, names, byte strings and buffers on the native numbers.
-- Format: crates/lchfs-format/src/objects.rs and superblock.rs, with the pool uuid as text.
-- Format.Sealed: sealing and opening a record, crates/lchfs-format/src/sealed.rs with the envelope of
--   crates/lchfs-crypto/src/envelope.rs.
-- Chunk: `FastCdcChunker` of crates/lchfs-chunk/src/lib.rs. `push` runs on fuel, one more than the
--   buffered bytes, which is enough since each round takes a byte at least.
-- Crypto.Padme: crates/lchfs-crypto/src/padme.rs.
-- Device.Layout and Device.Keyring: `DeviceLabel`, `plan_layout`, and the two copies of the keyring,
--   crates/lchfs-device/src/layout.rs and lib.rs.
-- Device.Zones: the zones of a device and the segments over them, crates/lchfs-device/src/lib.rs and
--   layout.rs. `Device` is `Inner`, with the zone headers and payloads of the disk beside the maps
--   in memory. An operation on a handle takes the segment that the handle shares with the table, or
--   the one that was removed. Parts, Blocks, Removal and Synced follow the headers through the writes, Valid, Keeps
--   and Steps the operations in any order, Crash and Mount what a later mount finds.
-- Fuse.Acl: crates/lchfs-fuse/src/acl.rs.
-- Store.Namespace: `Namespace` of crates/lchfs-store/src/lib.rs and `lookup`, `create_entry`,
--   `unlink`, `rmdir`, `link` and `rename`. A state is a record; an operation gives its result and
--   the state behind it, which on an error is the state before. The walk of `rename` up the parents
--   is bounded, as in the source, by the number of inodes and one more; Climb bounds a path of
--   directories by that number. Tree says when the directories are one tree, Moves follows `rename`.
-- Store.Membership: `check_membership` of the same file, over what each given device tells.
-- Store.Vdevs: `VdevSet` of crates/lchfs-store/src/vdevs.rs, whose lock makes each operation a step.
-- Store.Attributes: `set_attr`, `get_xattr`, `set_xattr` and `remove_xattr` of the same file.
-- Store.Superblock: `read_superblock` and `write_superblock_slot` of the same file, over the ring's
--   sixteen blocks, each of which is read and written whole.
-- Store.Content: the contents of a file as bytes: what `write`, `set_size` and `fallocate` do to the
--   buffer, `rechunk_and_touch`, `hydrate_file_state`, `read_range_from_chunks`, `seek_in_chunks`
--   and `slice_of` of the same file. The chunk store is two functions, to commit and to fetch.
--
-- Parameters stand for bincode, CRC32C, the record cipher, the cut point of fastcdc and the chunk
-- store, with what the code relies on as hypotheses: what is encoded decodes, what is encrypted
-- decrypts, a cut lies within the buffer, a committed chunk is fetched.
--
-- Not modelled: locks and threads, device input and output and its failures, the positional reads
-- and writes of a segment file, the incremental write session, the index, garbage collection,
-- stripes, the keyring's own format, and the FUSE, NFS and command-line front ends.
pub mod Common
pub mod Format
pub mod Chunk
pub mod Crypto
pub mod Device
pub mod Fuse
pub mod Store
