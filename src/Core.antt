-- ===== src/Core.antt =====
-- app/src/core: the registry of threads, the start of the application and the logger, and the starts
-- of the targets.
pub mod Threads
pub mod App
pub mod Boot
pub mod Logger
