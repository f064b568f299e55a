-- ===== src/EasyFs.antt =====
-- easy-fs: the file system on a block device.
pub mod Device
pub mod Cache
pub mod Bitmap
pub mod DiskInode
pub mod DirEntry
pub mod SuperBlock
pub mod Efs
pub mod Vfs
