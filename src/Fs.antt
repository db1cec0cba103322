-- ===== src/Fs.antt =====
-- os/src/fs: the files that a process has open.
pub mod OsInode
mod Tests
