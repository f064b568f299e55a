-- ===== src/Task.antt =====
-- os/src/task: process identifiers, kernel stacks, tables of file descriptors and the ready queue.
pub mod Pid
pub mod FdTable
pub mod Manager
pub mod Tree
pub mod Mmap
