-- ===== src/Os.antt =====
-- The operating system's programs, programs/rv32/os.
pub mod Disk
pub mod Fs
pub mod Kernel
pub mod Line
