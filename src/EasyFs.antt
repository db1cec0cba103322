-- ===== src/EasyFs.antt =====
-- easy-fs: the block cache over a block device, and the file system on the blocks that it shows.
pub mod BlockCache
pub mod Disk
pub mod Bitmap
pub mod Layout
pub mod DiskInode
pub mod Efs
pub mod Vfs
mod Tests
mod EfsTests
mod ContentTests
mod VfsTests
