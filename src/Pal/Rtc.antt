-- ===== src/Pal/Rtc.antt =====
-- targets/freertos/pal/src/rtc_time_source.c: the calendar of the board, as the calls that it makes of
-- the HAL and of the kernel's mutex. `s_mutex` is an argument: whether it has been created.
pub mod Latch
mod Tests
use stm32f407vgt.Base.{ℕ, ◌+◌, Bool, true, false, ◌==◌, if◌then◌else◌}
use stm32f407vgt.Base.Programs.{Program, done, call, ◌>>=◌, ◌>>◌, World, run}
use stm32f407vgt.Glue.Time.{DateTime, PalTimeSource}
use mathlib.Core.Option.{some}

pub record RtcTime : Type 0 where
  pub hours : ℕ
  pub minutes : ℕ
  pub seconds : ℕ

pub record RtcDate : Type 0 where
  pub year : ℕ
  pub month : ℕ
  pub date : ℕ

pub data WeekDay : Type 0 where
  saturday other_day : WeekDay

-- `osc_config` and `rtc_init` answer whether the HAL returned HAL_OK, and `mutex_new` whether there is
-- a mutex. `get_time` and `get_date` answer what the variable holds after the call.
pub data Op : Type 0 where
  clock_enable backup_access osc_config rtc_init backup_read mutex_new : Op
  acquire release get_time get_date : Op
  set_time : RtcTime → Op
  set_date : RtcDate → WeekDay → Op
  backup_write : ℕ → Op

abbrev pub Ans : Op → Type 0
Ans osc_config = Bool
Ans rtc_init = Bool
Ans backup_read = ℕ
Ans mutex_new = Bool
Ans get_time = RtcTime
Ans get_date = RtcDate
Ans _ = Unit {0}

abbrev pub Rtc : Type 0 → Type 0
Rtc A = Program Op Ans A

abbrev pub ask : (op : Op) → Rtc (Ans op)
ask op = call op done

abbrev pub rtc_initialized_magic_value : ℕ
rtc_initialized_magic_value = 0x1234

abbrev default_time : RtcTime
default_time = record { hours = 18; minutes = 0; seconds = 0 }

abbrev default_date : RtcDate
default_date = record { year = 26; month = 7; date = 19 }

unfoldable pub set_default_date_time : Rtc (Unit {0})
set_default_date_time = do
  ask (set_time default_time)
  ask (set_date default_date saturday)
  ask (backup_write rtc_initialized_magic_value)

abbrev pub date_time : RtcTime → RtcDate → DateTime
date_time t d = record {
  has_date = true;
  year = 2000 + d.year;
  month = d.month;
  day = d.date;
  hours = t.hours;
  minutes = t.minutes;
  seconds = t.seconds;
}

unfoldable pub rtc_time_source_get : Bool → Rtc DateTime
rtc_time_source_get has_mutex = do
  if has_mutex then ask acquire else done tt
  t ← ask get_time
  d ← ask get_date
  if has_mutex then ask release else done tt
  done (date_time t d)

-- Behind the two initialisations of the HAL: the answer true, and `s_mutex` after it.
unfoldable pub finish_init : Bool → Rtc (Bool × Bool)
finish_init has_mutex = do
  magic ← ask backup_read
  if magic == rtc_initialized_magic_value then done tt else set_default_date_time
  made ← if has_mutex then done true else ask mutex_new
  done (true, made)

unfoldable pub rtc_time_source_init : Bool → Rtc (Bool × Bool)
rtc_time_source_init has_mutex = do
  ask clock_enable
  ask backup_access
  oscillates ← ask osc_config
  elim oscillates [
    | false ↦ done (false, has_mutex)
    | true ↦ do
      inited ← ask rtc_init
      elim inited [ false ↦ done (false, has_mutex) | true ↦ finish_init has_mutex ]
  ]

-- The source that a successful init hands out, over a world that answers its calls.
abbrev pub time_source : {S : Type 0} → World Op Ans S → Bool → PalTimeSource S
time_source world has_mutex = record {
  get = λ s. let (t, s1) = run world (rtc_time_source_get has_mutex) s in (some t, s1);
}
