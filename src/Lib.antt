-- ===== src/Lib.antt =====
-- Verification of the STM32F407VGT6 firmware: the application of app/ and the OS layers of its
-- targets.
--
-- The program. `appRun` (app/src/core/app.c) registers the threads of the application in a registry
-- (app/src/core/app_threads.c) and starts them. Every task checks in with a table
-- (app/src/diagnostics/app_task_trace.c); the watchdog task (app/src/diagnostics/crash_dump.c) reads
-- that table and refreshes the hardware watchdog while every task is alive. Client tasks send block
-- requests through a queue of the OS layer (app/include/osal/osal.h) to the storage service
-- (app/src/storage/storage_service.c), which serves them from one file of a FatFS volume and resolves
-- the promise of each. FatFS reaches the block device through app/src/storage/fatfs_diskio.c and the
-- hooks of app/include/pal/pal_storage.h; on the host the device is a RAM disk
-- (targets/host/pal/src/pal_host_disk.c) and the queue stands on POSIX threads
-- (targets/host/osal/src/osal.c).
--
-- The files, by part.
--   Base, Base/*            numbers, lists, words of 32 bits, bits, slices of byte arrays. Programs: code
--                           as the tree of the outside calls that it makes, going on with whatever
--                           each call answers; rules on the order of the calls, and worlds that answer
--                           them. `Follows rules m r Q` is a statement for all answers.
--   Osal/Fifo               the contract of a bounded queue of osal.h: `send` and `receive` on a list.
--   Osal/HostQueue          targets/host/osal/src/osal.c, osal_queue_create, osal_queue_send and
--                           osal_queue_receive. HostQueue is OsalPosixQueue less its mutex and its
--                           condition variables: what the other tasks do while a call waits is the
--                           list of Wakes that the call is given, one for each return of
--                           pthread_cond_wait or pthread_cond_timedwait. Ring: the ring of items;
--                           Refine: the ring against the list; Blocking: the waits; Calls: the two
--                           calls against Osal/Fifo. Signals: the same calls as steps on the two condition
--                           variables, with the tasks that wait and the signals; Wakeups: that no
--                           signal is lost.
--   Osal/ThreadxQueue       targets/threadx/osal/src/osal.c, osal_queue_create, osal_queue_send and
--                           osal_queue_receive. A step relation: what a task does between two native
--                           calls is one step, and the steps of all tasks interleave. The native queues
--                           of ThreadX are lists; a call that times out changes nothing and is no step.
--                           Slots: where each slot number is; Interleaved: the invariant; Runs: the
--                           order of the items; Held: the copy that a receive makes, and the ticks of a
--                           timeout; Create: the creation.
--   Osal/EventPool          targets/freertos/osal/src/cfuture_sync_ops.c, the events of the promise
--                           library. Handles: which slots it hands out, and that no signal is stale.
--   Osal/ThreadxTasks       targets/threadx/osal/src/osal.c, tasks, mutexes, delays and heap. Slots: the
--                           memory and the slots of a creation, and the start of the registry.
--   Osal/HostTasks          targets/host/osal/src/osal.c, the same of the host. Creation: what a creation
--                           of a task keeps; Deadline: points in time.
--   Osal/FreertosOsal       targets/freertos/osal/src/osal.c.
--   Osal/ZephyrOsal         targets/zephyr/osal/src/osal.c. Memory: what a creation keeps.
--   Osal/EventFlags         cfuture_sync_ops.c of targets/threadx/osal/src (Threadx) and of
--                           targets/zephyr/osal/src (Zephyr): events as bits of a group of flags, which
--                           is an interface. Independent: events against single flags; Resets: what a
--                           wait of Zephyr loses.
--   Diagnostics/TaskTrace   app/src/diagnostics/app_task_trace.c. The static array and its count are
--                           one list. Lookup and Records: the table as a map from names to records;
--                           Supervision, Slots and Silence: sequences of calls.
--   Diagnostics/Watchdog    crashDumpWatchdogTaskEntry. Each read of the table meets a table of its
--                           own, since other tasks write between two reads. Health: one turn; Starve:
--                           a task that hangs.
--   Diagnostics/CrashDump   crash_dump.c: crashDumpCapture, crashDumpReport, crashDumpPrintHex, and
--                           crashDumpRawUartPuts (Uart). Memory and the readings of the UART's flags
--                           are functions. Hardware: the accesses of the peripherals in the fault
--                           handlers and the early init; Board, Reset and Armed: their order.
--   Diagnostics/Blinky      app/src/diagnostics/blinky_task.c.
--   Diagnostics/SelfTest    app/src/diagnostics/cfuture_selftest.c. Checks: the battery of checks, which
--                           make calls of the promise library; Producer, Leaks and Verdicts: proofs.
--   Storage/Protocol        app/include/storage/storage_protocol.h.
--   Storage/Fatfs           the FatFS calls that the service makes, as an interface, and the
--                           documented laws of its file calls (external/fatfs is a vendored library).
--   Storage/Service         app/src/storage/storage_service.c: the functions up to serviceRequest;
--                           Task: the loop of storageServiceTaskEntry over the events that its queue
--                           delivers. Blocks, Requests and Lifecycle hold the proofs.
--   Storage/Memory          a file system in memory that satisfies those laws, for instances.
--   Storage/Client          app/src/storage/client_tasks.c. Helpers: the calls of the queue and of the
--                           promise library; Scenarios: the four scenarios; Entry: the tasks. Futures
--                           and Returned: every future is given back; Timing, Durations and OnTime:
--                           check-ins; Stopping: the stop request; Served: a scenario with the service.
--   Pal/Storage             app/include/pal/pal_storage.h, the hooks of a block device.
--   Pal/HostDisk            targets/host/pal/src/pal_host_disk.c.
--   Pal/TimeSource          targets/freertos/pal/src/time_source_impl.c.
--   Pal/Rtc                 targets/freertos/pal/src/rtc_time_source.c. Latch: the order of the calls of
--                           the calendar, and the stamp that FatFS gets.
--   Pal/LogSink             log_sink_impl.c of targets/freertos/pal/src, and its copies for ThreadX and
--                           Zephyr, as a step relation. Lines: the order of what comes out.
--   Glue/Diskio             app/src/storage/fatfs_diskio.c.
--   Glue/Time               app/src/storage/fatfs_time.c and app/include/pal/pal_time.h.
--   Usb                     app/src/usb/usb_host.c (Host; its task is Host/Process), usbh_msc_disk.c
--                           (MscDisk) and usbh_conf.c (Conf). The vendored USB host library, the HAL and
--                           the lock of the OS are an interface.
--   Core/Threads, Core/App  app/src/core/app_threads.c and app.c, with storageDemoRegister and
--                           cfutureSelfTestRegister.
--   Core/Boot               the starts of the targets: board_start_app.c of targets/freertos/pal/src and
--                           of targets/threadx/pal/src, targets/zephyr/src/main.c and
--                           targets/host/main.c. Wiring: what they have set up for the application.
--   Core/Logger             app/src/core/logger.c.
-- The files Tests hold runs and instances at concrete inputs.
--
-- Numbers. A number of the source is a native number; where it can wrap, the model takes the
-- remainder (`add32`, `sub32`). Subtraction is written out where the source subtracts.
--
-- Loops. The loops over arrays and texts are recursion on the list. The waits of the host queue recur
-- on the list of Wakes, and a call has not returned when the list is used up; when it has returned
-- otherwise is a theorem. The poll loop of the UART counts down from a limit, which is 1000000 in the
-- source (`uart_spin_limit`). The task loops of the service and of the watchdog recur on the list of
-- events or turns that they meet. The endless loops of the other tasks are cut off by fuel, and the
-- theorems hold for any fuel: what a cut-off run has done is what the task has done by then. The wait for
-- the medium polls at most 201 times, since it adds up the time that it has waited, and has 201 rounds. The
-- repeated nanosleep of a delay on the host ends when the system stops interrupting it, and is cut off
-- by fuel too.
--
-- Not modelled: the vendored libraries of external/ and the middleware of the targets; the promise
-- library, a git submodule, whose calls are answered by the world; the generated start-up code; the
-- LEDs and the interrupt glue of the boards. The trampolines of the tasks run the task's
-- entry, and are left out.
pub mod Core
pub mod Usb
pub mod Base
pub mod Osal
pub mod Diagnostics
pub mod Storage
pub mod Pal
pub mod Glue
