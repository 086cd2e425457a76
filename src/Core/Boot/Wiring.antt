-- ===== src/Core/Boot/Wiring.antt =====
-- What a start has set up when it runs the application, and how it ends.
use stm32f407vgt.Base.{ℕ, ◌≡◌, Bool, true, false, ltb, if◌then◌else◌}
use stm32f407vgt.Base.Programs.{Rules}
use stm32f407vgt.Core.Boot.{
  Op, Ans, Boot, End, running, halted, exited, early_init, byte_pool_init, led_init, halt,
  log_sink_init, rtc_init, time_source_init, usb_disk_init, sync_ops_get, disk_create, disk_destroy,
  failure_count, app_run, freertos_start, threadx_start, zephyr_main, host_main,
}

pub data Target : Type 0 where
  freertos threadx zephyr host : Target

abbrev pub start : Target → Boot End
start freertos = freertos_start
start threadx = threadx_start
start zephyr = zephyr_main
start host = host_main

pub record Setup : Type 0 where
  pub armed : Bool
  pub pool : Bool
  pub led : Bool
  pub sink : Bool
  pub clock : Bool
  pub storage : Bool
  pub ops : Bool
  pub started : Bool
  pub stopped : Bool
  pub failures : ℕ

abbrev pub is_board : Target → Bool
is_board host = false
is_board _ = true

abbrev pub has_pool : Target → Bool
has_pool threadx = true
has_pool _ = false

-- The fault handlers and the watchdog of a board are set up before the LED; the application is run once,
-- with everything that it is given; and the disk of the host is destroyed only while there is one.
abbrev pub wiring : Target → Rules Op Ans Setup
wiring target = record { allowed = allowed; after = after }
  where
    allowed : Op → Setup → Type 0
    allowed led_init s = s.armed ≡ is_board target
    allowed (app_run dependencies) s =
        (s.armed ≡ is_board target)
        × (s.pool ≡ has_pool target)
        × (s.led ≡ true)
        × (s.sink ≡ true)
        × (s.clock ≡ true)
        × (s.storage ≡ true)
        × (s.ops ≡ true)
        × (s.started ≡ false)
    allowed disk_destroy s = s.storage ≡ true
    allowed _ s = Unit {0}

    after : (op : Op) → Ans op → Setup → Setup
    after early_init x s = record s { armed = true }
    after byte_pool_init x s = record s { pool = true }
    after led_init x s = record s { led = x }
    after halt x s = record s { stopped = true }
    after log_sink_init x s = record s { sink = true }
    after rtc_init x s = record s { clock = x }
    after time_source_init x s = record s { clock = true }
    after usb_disk_init x s = record s { storage = true }
    after sync_ops_get x s = record s { ops = true }
    after disk_create x s = record s { storage = x }
    after disk_destroy x s = record s { storage = false }
    after failure_count x s = record s { failures = x }
    after (app_run dependencies) x s = record s { started = x }
    after op x s = s

-- A board runs its application or has asked for a halt; the host gives the disk back, and returns 0
-- exactly where the application ran and no scenario failed.
abbrev pub Ended : End → Setup → Type 0
Ended running s = s.started ≡ true
Ended halted s = (s.started ≡ false) × (s.stopped ≡ true)
Ended (exited code) s =
    (s.storage ≡ false) × (code ≡ (if s.started then (if ltb 0 s.failures then 1 else 0) else 1))

abbrev pub off : Setup
off = record {
  armed = false;
  pool = false;
  led = false;
  sink = false;
  clock = false;
  storage = false;
  ops = false;
  started = false;
  stopped = false;
  failures = 0;
}
