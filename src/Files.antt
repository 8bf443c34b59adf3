-- ===== src/Files.antt =====
-- The programs of linux-api-kerrisk that read and write files and their attributes.
pub mod DirWatch
pub mod Getcwd
pub mod UserXattr
pub mod Tail
pub mod Tee
pub mod AtomicAppend
pub mod FileTrend
pub mod Chattr
pub mod ChmodArx
pub mod MmapCopy
pub mod Dups
