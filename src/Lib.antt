-- ===== src/Lib.antt =====
-- rCore v3: a teaching operating system for RISC-V in Rust, and its file system easy-fs.
--
-- The program's parts and the files that model them (paths are from the repository's root):
--   * os/src/config.rs: Config, the constants. A `usize` has 64 bits everywhere; arithmetic that may
--     leave that range is written with its wrap, as in a release build.
--   * os/src/mm/frame_allocator.rs: Mm/Frame. `StackFrameAllocator` is a record, `frame_alloc` also
--     zeroes the frame in a memory of bytes, dropping a tracker is an event. Mm/Frame/Ownership says
--     who owns a frame.
--   * os/src/mm/address.rs: Mm/Address, the conversions between addresses and pages, the indices of a
--     page and the ranges that `for` loops run over. The wrapper types are dropped.
--   * os/src/mm/page_table.rs: Mm/Pte (the entries), Mm/PageTable (`PageTable`: find_pte_create,
--     find_pte, map, unmap, translate) and Mm/UserBuffer (`UserBuffer` and its iterator). The kernel's
--     state is the frame allocator and the entries of all frames; the table's tree is in
--     Mm/PageTable/Tree, the nodes that a walk creates in Create, the writes of leaf entries in Map.
--   * os/src/mm/memory_set.rs: Mm/MapArea (`MapArea`: map, unmap, copy_data) and Mm/MemorySet
--     (`MemorySet`: push, unmap, new_kernel, from_elf, from_existed_user, recycle_data_pages). Frames are
--     seen in two ways, as entries and as bytes; the bytes matter for the frames that are no nodes. The
--     addresses of the linker script and the parser of ELF files are arguments.
--   * os/src/fs/pipe.rs: Fs/Pipe. A task that suspends in `read` or `write` wakes up to a ring that
--     other tasks have changed: the schedule gives that ring and the strong counts of the write ends.
--   * os/src/fs/mail_box.rs: Fs/MailBox, packets and the queue of a process.
--   * os/src/task/pid.rs: Task/Pid, the allocator of process identifiers, the handles as events, and
--     where the kernel stacks lie.
--   * os/src/task/task.rs (`alloc_fd`) and os/src/syscall/fs.rs (`sys_close`, `sys_dup`, `sys_pipe`):
--     Task/FdTable. `sys_pipe` writes to the user's memory through Mm/Access.
--   * os/src/task/manager.rs: Task/Manager, the ready queue of `TaskManager`, with the identifier and the
--     mailbox of each task.
--   * os/src/task/mod.rs, processor.rs and os/src/syscall/process.rs (`sys_waitpid_non_blocking`):
--     Task/Tree, the control blocks with their parents and children, the ready queue and the running
--     task. `holders` is the strong count of a block, less the references on the stack. Mm/Access has
--     the tests of user addresses in os/src/mm/page_table.rs. Task/Mmap has `map_virtual_pages` and
--     `unmap_virtual_pages` on the memory set of the running task.
--   * easy-fs/src/block_cache.rs and block_dev.rs: EasyFs/Device is the interface to a driver with the
--     law that a block reads as it was last written, EasyFs/Cache the caches, the queue of the manager
--     with the counts of references, eviction and changes through a reference.
--   * easy-fs/src/bitmap.rs: EasyFs/Bitmap, over the array of blocks that callers of the cache see,
--     each of 64 words of 64 bits.
--   * easy-fs/src/layout.rs: EasyFs/SuperBlock, EasyFs/DirEntry (names and numbers in directories) and
--     EasyFs/DiskInode: how many blocks a file has, where they are, and `clear_size`; Content has
--     `read_at` and `write_at` over the bytes of the device, an index block being read as numbers of
--     four bytes; Grow has `increase_size`, loop by loop, with the iterator over the new blocks.
--   * easy-fs/src/efs.rs: EasyFs/Efs, the areas of the device, `create`, `open` (here `open_`), and the
--     allocation of inodes and data blocks. The device is seen through the types that the code gives
--     its blocks: words in the bitmaps, inodes, bytes; Efs/Areas says that the areas do not overlap.
--   * easy-fs/src/vfs.rs: EasyFs/Vfs, the operations on an inode: find, create, ls, read_at, write_at,
--     clear and the count of links.
--   * Prelude holds the names and lemmas that the modules share: `Run` is a computation that may
--     panic, `count` counts in lists, and Bits reads masks and fields as arithmetic.
--
-- How they interact: page tables take their nodes from the frame allocator (every node of a table
-- is a frame that the kernel holds); map areas take a frame for each page and the page table's
-- entries point to them; pipes and mailboxes move bytes through
-- the iterator of user buffers; Vfs calls Efs for blocks and DiskInode for the bytes of a file, and
-- both see blocks as callers of the block cache do.
--
-- Bounds and fuel: the loops of `Pipe::read` and `Pipe::write` take fuel: each round moves bytes or
-- suspends, so two rounds for each suspension and two more are enough; a packet is filled in at most 256 rounds;
-- a pass of `read_at` and `write_at` moves a byte or more, so as many passes as the end of the range are enough, and the last loop
-- of `increase_size` has a pass for each block; `copy_data` has a pass for each page of the data; page numbers have 27
-- bits, frame numbers 44. Locks are not modelled: each operation runs alone, as the mutexes ensure.
--
-- Not modelled: drivers, console, logging, firmware calls, traps and boot code (machine registers and
-- assembly), the kernel heap (a third-party allocator), user programs and the image packer. The
-- switch to an address space writes a machine register; fork and exec, the
-- stride scheduler (not in use) and the other system calls are not modelled; of a block that is dropped
-- only its end is, not what its identifier, stack and page table give back.
pub mod Prelude
pub mod Config
pub mod Mm
pub mod Fs
pub mod Task
pub mod EasyFs
