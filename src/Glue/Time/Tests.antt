-- ===== src/Glue/Time/Tests.antt =====
-- File time stamps at concrete inputs.
use stm32f407vgt.Base.{ℕ, ◌≡◌, true, some, arith}
use stm32f407vgt.Glue.Time.{DateTime, PalTimeSource, get_fattime}
use stm32f407vgt.Glue.Time.Fields.{IsFatDate, decode, even_second, decode-get_fattime}

abbrev noon : DateTime
noon = record {
  has_date = true;
  year = 2024;
  month = 2;
  day = 29;
  hours = 12;
  minutes = 30;
  seconds = 59;
}

noon-IsFatDate : IsFatDate noon
noon-IsFatDate = record {
  year_from = omega arith;
  year_to = omega arith;
  month = omega arith;
  day = omega arith;
  hours = omega arith;
  minutes = omega arith;
  seconds = omega arith;
}

abbrev clock : PalTimeSource ℕ
clock = record { get = λ n. (some noon, n) }

decode-get_fattime_case : decode (get_fattime (some clock) 7).0 ≡ even_second noon
decode-get_fattime_case = decode-get_fattime (some clock) 7 noon-IsFatDate
