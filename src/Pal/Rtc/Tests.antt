-- ===== src/Pal/Rtc/Tests.antt =====
-- The calendar over a small world: the time that it holds and its backup register.
use stm32f407vgt.Base.{ℕ, ◌≡◌, refl, true, false, some, arith}
use stm32f407vgt.Base.Programs.{World, run}
use stm32f407vgt.Glue.Time.{get_fattime}
use stm32f407vgt.Glue.Time.Fields.{decode}
use stm32f407vgt.Pal.Rtc.{
  RtcTime, RtcDate, Op, Ans, osc_config, rtc_init, backup_read, mutex_new, get_time, get_date,
  set_time, set_date, backup_write, rtc_time_source_init, finish_init, set_default_date_time,
  time_source,
}
use stm32f407vgt.Pal.Rtc.Latch.{Calendar, unset, IsCalendar, stamp_of_calendar}

record Board : Type 0 where
  time : RtcTime
  date : RtcDate
  backup : ℕ

abbrev board : World Op Ans Board
board osc_config s = (true, s)
board rtc_init s = (true, s)
board backup_read s = (s.backup, s)
board mutex_new s = (true, s)
board get_time s = (s.time, s)
board get_date s = (s.date, s)
board (set_time t) s = (tt, record s { time = t })
board (set_date d w) s = (tt, record s { date = d })
board (backup_write n) s = (tt, record s { backup = n })
board op s = (tt, s)

abbrev evening : RtcTime
evening = record { hours = 21; minutes = 45; seconds = 31 }

abbrev day : RtcDate
day = record { year = 26; month = 11; date = 26 }

abbrev running : Board
running = record { time = evening; date = day; backup = 0x1234 }

-- A calendar that runs is left alone, and one that does not is set.
running_kept : (run board (rtc_time_source_init false) running).1 ≡ running
unfolding rtc_time_source_init finish_init
running_kept = refl

fresh_set : (run board (rtc_time_source_init false) (record running { backup = 0 })).1 ≡ record {
  time = record { hours = 18; minutes = 0; seconds = 0 };
  date = record { year = 26; month = 7; date = 19 };
  backup = 0x1234;
}
unfolding rtc_time_source_init finish_init set_default_date_time
fresh_set = refl

abbrev ready : Calendar
ready = unset true

evening-IsCalendar : IsCalendar evening day
evening-IsCalendar = record {
  year = omega arith;
  month = omega arith;
  day = omega arith;
  hours = omega arith;
  minutes = omega arith;
  seconds = omega arith;
}

stamp_of_calendar_example :
    decode (get_fattime (some (time_source board true)) running).0 ≡ record {
      has_date = true;
      year = 2026;
      month = 11;
      day = 26;
      hours = 21;
      minutes = 45;
      seconds = 30;
    }
stamp_of_calendar_example = stamp_of_calendar board true running evening-IsCalendar
