-- ===== src/Pal.antt =====
-- The platform layer: the block-storage interface of app/include/pal/pal_storage.h with its disk in
-- memory, and the time sources and the log sink of the boards.
pub mod Storage
pub mod HostDisk
pub mod TimeSource
pub mod Rtc
pub mod LogSink
