-- ===== src/Pal/Rtc/Latch.antt =====
-- The order of the calendar's calls.
use stm32f407vgt.Base.{
  ◌+◌, ◌≤◌, ◌<◌, ◌≡◌, refl, ◌&&◌, not, Option, none, ap, ◌∙◌, if◌then◌else◌, Bool, true, false,
  some, ◌==◌, arith,
}
use stm32f407vgt.Base.Programs.{World, run, Rules}
use stm32f407vgt.Glue.Time.{DateTime, get_fattime}
use stm32f407vgt.Glue.Time.Fields.{IsFatDate, decode, even_second, wanted, decode-get_fattime}
use stm32f407vgt.Pal.Rtc.{
  RtcTime, RtcDate, Op, Ans, osc_config, rtc_init, backup_read, mutex_new, acquire, release,
  get_time, get_date, set_time, set_date, backup_write, rtc_initialized_magic_value,
  rtc_time_source_get, time_source,
}

-- The mutex: whether it exists, was asked for and is held. The reading of its holder: whether a time read
-- has latched the shadow registers, and the time and the date that were read. The init: what the HAL
-- answered, whether the mark was in the backup register, and what has been set and marked.
pub record Calendar : Type 0 where
  pub mutex : Bool
  pub asked : Bool
  pub held : Bool
  pub latched : Bool
  pub time : Option RtcTime
  pub date : Option RtcDate
  pub oscillates : Bool
  pub inited : Bool
  pub known : Bool
  pub has_time : Bool
  pub has_date : Bool
  pub marked : Bool

-- The time and then the date are read under the mutex, and the mark in the backup register, which says
-- that the calendar has been set, is written after both.
abbrev pub ordered : Rules Op Ans Calendar
ordered = record { allowed = allowed; after = after }
  where
    allowed : Op → Calendar → Type 0
    allowed rtc_init c = c.oscillates ≡ true
    allowed mutex_new c = c.mutex ≡ false
    allowed acquire c = (c.mutex ≡ true) × (c.held ≡ false)
    allowed release c = c.held ≡ true
    allowed get_time c = c.held ≡ true
    allowed get_date c = (c.held ≡ true) × (c.latched ≡ true)
    allowed (backup_write n) c = (c.has_time ≡ true) × (c.has_date ≡ true)
    allowed _ c = Unit {0}

    after : (op : Op) → Ans op → Calendar → Calendar
    after osc_config x c = record c { oscillates = x }
    after rtc_init x c = record c { inited = x }
    after backup_read x c = record c { known = x == rtc_initialized_magic_value }
    after mutex_new x c = record c { mutex = x; asked = true }
    after acquire x c = record c { held = true; latched = false; time = none; date = none }
    after release x c = record c { held = false; latched = false }
    after get_time x c = record c { latched = true; time = some x; date = none }
    after get_date x c = record c { latched = false; date = some x }
    after (set_time t) x c = record c { has_time = true }
    after (set_date d w) x c = record c { has_date = true }
    after (backup_write n) x c = record c { marked = n == rtc_initialized_magic_value }
    after op x c = c

-- The stamp of a time and a date of the calendar, whose years count from 2000.
abbrev pub stamp_of : RtcTime → RtcDate → DateTime
stamp_of t d = record {
  has_date = true;
  year = 2000 + d.year;
  month = d.month;
  day = d.date;
  hours = t.hours;
  minutes = t.minutes;
  seconds = t.seconds;
}

-- The answer is the stamp of the time and the date that were read, and the mutex is free.
abbrev pub Read : DateTime → Calendar → Type 0
Read answer c =
    (c.held ≡ false)
    × ((t : RtcTime) × (d : RtcDate) × (c.time ≡ some t)
        × (c.date ≡ some d)
        × (answer ≡ stamp_of t d))

-- Before an init, with or without a mutex.
abbrev pub unset : Bool → Calendar
unset has_mutex = record {
  mutex = has_mutex;
  asked = false;
  held = false;
  latched = false;
  time = none;
  date = none;
  oscillates = false;
  inited = false;
  known = false;
  has_time = false;
  has_date = false;
  marked = false;
}

-- The answer is whether both initialisations of the HAL succeeded, with the mutex that there is then.
-- After a success a mutex was asked for where there was none, and the calendar was set and marked exactly
-- where it had no mark.
abbrev pub IsInit : Bool → Bool × Bool → Calendar → Type 0
IsInit has_mutex (ok, made) c =
    (ok ≡ (c.oscillates && c.inited))
    × (made ≡ c.mutex)
    × (c.held ≡ false)
    × (ok ≡ true → c.asked ≡ not has_mutex)
    × (c.has_time ≡ (ok && not c.known))
    × (c.has_date ≡ (ok && not c.known))
    × (c.marked ≡ (ok && not c.known))

-- The calendar that the HAL has initialised.
abbrev started : Bool → Calendar
started has_mutex = record (unset has_mutex) { oscillates = true; inited = true }

-- ... and that has been read for its mark, and set if it had none.
abbrev settled : Bool → Bool → Calendar
settled has_mutex known = record (started has_mutex) {
  known = known;
  has_time = not known;
  has_date = not known;
  marked = not known;
}

-- What the calendar of the hardware holds: two digits of a year, and a month, day and time of their
-- ranges.
pub record IsCalendar (t : RtcTime) (d : RtcDate) : Type 0 where
  pub year : d.year < 100
  pub month : d.month ≤ 12
  pub day : d.date ≤ 31
  pub hours : t.hours < 24
  pub minutes : t.minutes < 60
  pub seconds : t.seconds < 60

stamp_of-IsFatDate : (t : RtcTime) (d : RtcDate) → IsCalendar t d → IsFatDate (stamp_of t d)
stamp_of-IsFatDate t d v = record {
  year_from = omega arith;
  year_to = omega (arith, v.year);
  month = omega (arith, v.month);
  day = omega (arith, v.day);
  hours = omega (arith, v.hours);
  minutes = omega (arith, v.minutes);
  seconds = omega (arith, v.seconds);
}

module _ {S : Type 0} (world : World Op Ans S) where
  -- The time that the world gives out behind the mutex, and the date that it gives out after that.
  abbrev pub locked : Bool → S → S
  locked has_mutex s = if has_mutex then (world acquire s).1 else s

  abbrev pub time_at : Bool → S → RtcTime
  time_at has_mutex s = (world get_time (locked has_mutex s)).0

  abbrev pub date_at : Bool → S → RtcDate
  date_at has_mutex s = (world get_date (world get_time (locked has_mutex s)).1).0

  reading-eq :
      (has_mutex : Bool) (s : S)
      → (run world (rtc_time_source_get has_mutex) s).0
        ≡ stamp_of (time_at has_mutex s) (date_at has_mutex s)
  unfolding rtc_time_source_get
  reading-eq true s = refl
  reading-eq false s = refl

  -- In any world, with or without a mutex: a file that is stamped from the calendar has, by the layout of
  -- the FAT entry, the date and the time that the calendar gave out, its years counted from 2000, down to
  -- the even second, whatever they are in the ranges of their fields.
  pub stamp_of_calendar :
      (has_mutex : Bool) (s : S)
      → IsCalendar (time_at has_mutex s) (date_at has_mutex s)
      → decode (get_fattime (some (time_source world has_mutex)) s).0
        ≡ even_second (stamp_of (time_at has_mutex s) (date_at has_mutex s))
  stamp_of_calendar has_mutex s v =
      let source = time_source world has_mutex in
      let same : wanted (some source) s ≡ stamp_of (time_at has_mutex s) (date_at has_mutex s) =
        rw (reading-eq has_mutex s) refl in
      decode-get_fattime (some source) s
        (rw same (stamp_of-IsFatDate (time_at has_mutex s) (date_at has_mutex s) v))
      ∙ ap even_second same
