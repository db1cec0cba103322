-- ===== src/Lib.antt =====
-- Verification of ch_os: a teaching kernel for RISC-V in Rust (os) and its file system (easy-fs).
--
-- The kernel gives physical frames out of a stack (os/src/memory/frame_allocator.rs), builds SV39
-- page tables in them (os/src/memory/page_table.rs), and schedules processes in a queue
-- (os/src/task). The file system keeps blocks of a device in a cache of sixteen
-- (easy-fs/src/block_cache.rs); two bitmaps in such blocks say which inodes and which data blocks are
-- in use (easy-fs/src/bitmap.rs, efs.rs), and an inode indexes its blocks in two levels
-- (easy-fs/src/layout.rs). Address spaces are areas of pages over a table
-- (os/src/memory/memory_set.rs), opened files are inodes with an offset (easy-fs/src/vfs.rs,
-- os/src/fs/inode.rs), and a process holds one of each (os/src/task/task.rs), on which the system
-- calls work (os/src/syscall, os/src/trap/mod.rs).
--
-- Which file models what:
--   Base           what the models share: numbers, lists, bits, little-endian words, and `Outcome`,
--                  the result of code that may panic
--   Memory.Address os/src/memory/address.rs: conversions, rounding, indexes, ranges of pages
--   Memory.Frames  os/src/memory/frame_allocator.rs, `StackFrameAllocator`
--   Memory.Entry   os/src/memory/page_table.rs, `PageTableEntry`
--   Memory.PageTable  os/src/memory/page_table.rs, `PageTable`. Its state is the words of all frames
--                  and the frame allocator. Tree, Grow and Refine show that the frames of a table are
--                  a tree, Map that the table is a map from pages to entries, and Data that frames
--                  outside the tree do not matter to it
--   Memory.MapArea  os/src/memory/memory_set.rs, `MapArea`. Frames, Filled, Emptied and Laws are about
--                  `map` and `unmap`
--   Memory.MemorySet  os/src/memory/memory_set.rs, `MemorySet`: the operations, with Kernel
--                  (`new_kernel`, `remap_test`), Elf (`from_elf`; the parser is a parameter) and Fork
--                  (`from_existed_user`; its Pages is about the pages of one area,
--                  Area and AreaCopy about one area, Areas about all, Whole about the whole)
--   Memory.UserBuffer, Memory.UserString  `translated_byte_buffer`, `translated_str` and
--                  `translated_refmut` of os/src/memory/page_table.rs
--   EasyFs.BlockCache  easy-fs/src/block_cache.rs. The device is a parameter, a `BlockDevice` that
--                  reads what was written last. Transparent and Sync show that the layers above may
--                  take the cache for the blocks themselves
--   EasyFs.Disk    those blocks: bytes by block and offset. The models below use them in place of
--                  the cache
--   EasyFs.Bitmap  easy-fs/src/bitmap.rs
--   EasyFs.Layout  easy-fs/src/layout.rs: super block, block counts, directory entries
--   EasyFs.DiskInode  easy-fs/src/layout.rs, `DiskInode`: the index, growth and clearing,
--                  with Content for `read_at` and `write_at`
--   EasyFs.Efs     easy-fs/src/efs.rs: the division of the disk, `create`, `open` and data blocks
--   Task.Pid       os/src/task/pid.rs: process identifiers and the places of kernel stacks
--   Task.Manager   os/src/task/manager.rs and processor.rs: the ready queue and the running task
--   Syscall.Files  file descriptors: os/src/syscall/fs.rs, `alloc_fd` of os/src/task/task.rs and
--                  `OpenFlags` of os/src/fs/inode.rs
--   Syscall.Wait   the search of `sys_waitpid` of os/src/syscall/process.rs
--   EasyFs.Vfs     easy-fs/src/vfs.rs: `Inode` and its operations. Lookup is about
--                  `find_inode_id` and `ls`
--   Fs.OsInode     os/src/fs/inode.rs: `OSInode` and `open_file`
--   Task.Kernel    the state of the whole kernel. Stack is `KernelStack` of os/src/task/pid.rs,
--                  Process os/src/task/task.rs with `exit_current_and_run_next` and modules on
--                  new kernel stacks and on what a process gives back, Calls os/src/syscall with
--                  os/src/fs/stdio.rs and modules on `fork` and the memory that it makes, Trap
--                  the dispatch of os/src/syscall/mod.rs and os/src/trap/mod.rs with a module on
--                  `sys_waitpid`
--   Drivers.Spi, Drivers.SdCard  os/src/drivers/block/sdcard.rs: `SDCard` over an SPI controller, which
--                  is a parameter, as is what the card answers. Wire is what can be seen on the wires;
--                  Reading and Writing are about sectors, Fields about the registers, Errors and
--                  Release about `init` and the pin that selects the card
--   Drivers.Virtio  os/src/drivers/block/virtio_blk.rs: the frames that the virtio driver asks for
--   User           user/src/syscall.rs and user/src/lib.rs: the calls of a program, with Dispatch on
--                  how the kernel serves them, and the loops of `waitpid` and `sleep`
-- The modules whose names end in Tests hold runs at concrete states.
--
-- Conventions: a `usize` or `u32` is a natural number, and arithmetic that can wrap writes the modulus
-- out, as in the release build that the Makefiles make. State is passed and returned. A failed
-- assertion, an `unwrap` of `None` or an index out of range is `panic`. Of locks and interior cells
-- only the sequential behaviour is modelled: the kernel runs on one core and takes no trap in kernel
-- mode. Loops are structural recursion on what is left to do; `fill_indirect2`, `visits`,
-- `slices_from`, `read_from`, `write_from`, `read_all_from`, `copy_from` and `str_from` run on fuel: the
-- number of blocks that are left, one more than the pages of the range, the bytes of the buffer, one
-- more than the bytes to read or write (three times), one more than the pages that the bytes fill, and
-- a number that the caller gives, since a string in memory need not end. The theorems on them show
-- that this is enough; none is about `copy_from`. Three loops wait for something outside and may never
-- end, `wait_busy` of the card and `wait_for` and `sleep_until` of the library: there the caller gives
-- the fuel, and the theorems say how much is enough for what is awaited.
--
-- Not modelled: the assembly of traps and task switches and the registers that it saves, the
-- console's output, the heaps, start-up, the pins and clocks that the card driver sets up, the
-- firmware interface, the user programs, the host tool that packs the disk, and the vendored
-- crates under dependency. Of a call that waits, what other processes do meanwhile is left out.
pub mod Base
pub mod Memory
pub mod EasyFs
pub mod Fs
pub mod Task
pub mod Syscall
pub mod Drivers
pub mod User
