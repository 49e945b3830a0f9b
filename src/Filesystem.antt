-- ===== src/Filesystem.antt =====
-- filesystem/: the swap area, the FAT, the file control blocks, and the answers to the kernel.
pub mod Swap
pub mod Fat
pub mod Fcb
