-- ===== src/Glue.antt =====
-- The glue between FatFS and the platform layer: app/src/storage/fatfs_diskio.c and fatfs_time.c.
pub mod Diskio
pub mod Time
