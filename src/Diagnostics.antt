-- ===== src/Diagnostics.antt =====
-- app/src/diagnostics: the task table, the watchdog task, the crash dump, the LED task and the
-- self-test of the promise library.
pub mod TaskTrace
pub mod Watchdog
pub mod CrashDump
pub mod Blinky
pub mod SelfTest
