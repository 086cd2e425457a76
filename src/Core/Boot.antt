-- ===== src/Core/Boot.antt =====
-- The start of each target, as the calls that it makes: board_start_app of
-- targets/freertos/pal/src/board_start_app.c and targets/threadx/pal/src/board_start_app.c, and main of
-- targets/zephyr/src/main.c and targets/host/main.c.
pub mod Wiring
mod Tests
use Prim.Native.String.{String}
use stm32f407vgt.Base.{ℕ, ◌*◌, Bool, true, false, Option, none, some, ltb, if◌then◌else◌}
use stm32f407vgt.Base.Programs.{Program, done, call, ◌>>=◌, ◌>>◌}
use stm32f407vgt.Core.App.{AppDependencies}

-- `app_run` has the two tasks of the dependencies; the LED, the sink, the time source, the storage and
-- the hooks of the promise library are filled in by the calls before it. `led_init`, `rtc_init`,
-- `disk_create` and `app_run` answer whether the call returned true.
pub data Op : Type 0 where
  early_init byte_pool_init led_init halt log_sink_init rtc_init time_source_init : Op
  usb_disk_init sync_ops_get disk_create disk_destroy failure_count : Op
  app_run : AppDependencies → Op
  sleep : ℕ → Op
  print : String → Op

abbrev pub Ans : Op → Type 0
Ans led_init = Bool
Ans rtc_init = Bool
Ans disk_create = Bool
Ans (app_run dependencies) = Bool
Ans failure_count = ℕ
Ans _ = Unit {0}

-- How a start ends: the application runs, `crashDumpHalt` has been called, or `main` of the host has
-- returned.
pub data End : Type 0 where
  running halted : End
  exited : ℕ → End

abbrev pub Boot : Type 0 → Type 0
Boot A = Program Op Ans A

abbrev pub ask : (op : Op) → Boot (Ans op)
ask op = call op done

-- The entry points of the two tasks.
abbrev usb_host_process_task_entry : ℕ
usb_host_process_task_entry = 1

abbrev watchdog_task_entry : ℕ
watchdog_task_entry = 2

abbrev pub board_dependencies : AppDependencies
board_dependencies = record {
  usb_host_process = record { entry = some usb_host_process_task_entry; stack_bytes = 4096 };
  watchdog = record { entry = some watchdog_task_entry; stack_bytes = 128 * 4 * 4 };
}

abbrev halt_now : Boot End
halt_now = do ask halt; done halted

-- From the USB disk on, which is the same on every board.
unfoldable pub run_on_board : Boot End
run_on_board = do
  ask usb_disk_init
  ask sync_ops_get
  started ← ask (app_run board_dependencies)
  elim started [ true ↦ done running | false ↦ halt_now ]

unfoldable pub freertos_start : Boot End
freertos_start = do
  ask early_init
  lit ← ask led_init
  elim lit [
    | false ↦ halt_now
    | true ↦ do
      ask log_sink_init
      has_rtc ← ask rtc_init
      if has_rtc then done tt else ask time_source_init
      run_on_board
  ]

unfoldable pub threadx_start : Boot End
threadx_start = do
  ask early_init
  ask byte_pool_init
  lit ← ask led_init
  elim lit [ false ↦ halt_now | true ↦ do ask log_sink_init; ask time_source_init; run_on_board ]

unfoldable pub zephyr_main : Boot End
zephyr_main = do
  ask early_init
  lit ← ask led_init
  elim lit [
    | false ↦ do ask (print "[ERROR] LED device not ready\r\n"); halt_now
    | true ↦ do ask log_sink_init; ask time_source_init; run_on_board
  ]

abbrev pub demo_run_seconds : ℕ
demo_run_seconds = 5

abbrev pub host_dependencies : AppDependencies
host_dependencies = record {
  usb_host_process = record { entry = none; stack_bytes = 0 };
  watchdog = record { entry = none; stack_bytes = 0 };
}

abbrev destroy_and_exit : ℕ → Boot End
destroy_and_exit code = do ask disk_destroy; done (exited code)

-- The text has the count and a hint.
abbrev judge : ℕ → Boot End
judge failures =
    if ltb 0 failures
    then ask (print "host: scenario failure(s) logged") >> destroy_and_exit 1
    else ask (print "host: storage demo run complete, all scenarios passing\n")
      >> destroy_and_exit 0

-- Behind a start that succeeded.
unfoldable pub wait_and_judge : Boot End
wait_and_judge = do
  ask (sleep (demo_run_seconds * 1000))
  failures ← ask failure_count
  judge failures

unfoldable pub run_on_host : Boot End
run_on_host = do
  ask log_sink_init
  ask time_source_init
  ask sync_ops_get
  started ← ask (app_run host_dependencies)
  elim started [ true ↦ wait_and_judge | false ↦ destroy_and_exit 1 ]

unfoldable pub host_main : Boot End
host_main = do
  created ← ask disk_create
  elim created [
    | false ↦ do ask (print "host: failed to create backing disk\n"); done (exited 1)
    | true ↦ do
      lit ← ask led_init
      elim lit [
        | false ↦ do ask (print "host: LED device not ready\n"); destroy_and_exit 1
        | true ↦ run_on_host
      ]
  ]
