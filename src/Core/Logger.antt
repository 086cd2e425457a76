-- ===== src/Core/Logger.antt =====
-- app/src/core/logger.c: one log line, formatted and cut to the buffer. Texts are lists of character
-- codes; `snprintf` is written out for the two formats that the file uses.
pub mod Lines
mod Tests
use stm32f407vgt.Base.{
  ℕ, zero, suc, ◌+◌, ◌-◌, ◌/◌, ◌%◌, Bool, true, false, Option, none, some, List, [], ◌∷◌, ◌++◌,
  length, take, ltb, ◌==◌, if◌then◌else◌,
}
use stm32f407vgt.Glue.Time.{DateTime, PalTimeSource}

abbrev pub logger_max_line_length : ℕ
logger_max_line_length = 96

pub data LogLevel : Type 0 where
  event error : LogLevel

abbrev pub log_level_name : LogLevel → List ℕ
log_level_name error = 69 ∷ 82 ∷ 82 ∷ 79 ∷ 82 ∷ []
log_level_name event = 69 ∷ 86 ∷ 69 ∷ 78 ∷ 84 ∷ []

-- `%02u` and `%04u` of numbers below 100 and 10000, and of greater ones below 100000: a field is
-- never shorter than its width, and never cut.
abbrev pub digit : ℕ → ℕ
digit d = 48 + d % 10

unfoldable pub two_digits : ℕ → List ℕ
two_digits n =
    if ltb n 100
    then digit (n / 10) ∷ digit n ∷ []
    else digit (n / 100) ∷ digit (n / 10) ∷ digit n ∷ []

unfoldable pub four_digits : ℕ → List ℕ
four_digits n =
    if ltb n 10000
    then digit (n / 1000) ∷ digit (n / 100) ∷ digit (n / 10) ∷ digit n ∷ []
    else digit (n / 10000) ∷ digit (n / 1000) ∷ digit (n / 100) ∷ digit (n / 10) ∷ digit n ∷ []

abbrev pub clock_text : DateTime → List ℕ
clock_text t = two_digits t.hours ++ (58 ∷ (two_digits t.minutes ++ (58 ∷ two_digits t.seconds)))

abbrev pub date_text : DateTime → List ℕ
date_text t =
    four_digits t.year
    ++ (45 ∷ (two_digits t.month ++ (45 ∷ (two_digits t.day ++ (32 ∷ clock_text t)))))

-- "[date time] " or "[up time] ".
abbrev pub stamp_text : DateTime → List ℕ
stamp_text t =
    if t.has_date
    then 91 ∷ (date_text t ++ (93 ∷ 32 ∷ []))
    else 91 ∷ 117 ∷ 112 ∷ 32 ∷ (clock_text t ++ (93 ∷ 32 ∷ []))

-- What `snprintf` would print with room enough.
unfoldable pub full_line : DateTime → LogLevel → List ℕ → List ℕ
full_line t level message =
    stamp_text t ++ (91 ∷ (log_level_name level ++ (93 ∷ 32 ∷ (message ++ (13 ∷ 10 ∷ [])))))

-- `DateTime time = {0};`, which stays where the source fails.
abbrev pub zero_time : DateTime
zero_time = record {
  has_date = false;
  year = 0;
  month = 0;
  day = 0;
  hours = 0;
  minutes = 0;
  seconds = 0;
}

abbrev pub time_of : Option DateTime → DateTime
time_of none = zero_time
time_of (some t) = t

-- The bytes that `write` of the sink gets, in one call. `written` is never 0, as the line has its
-- brackets.
unfoldable pub log : {S : Type 0} → PalTimeSource S → S → LogLevel → List ℕ → List ℕ × S
log source s level message =
    let (found, s') = source.get s in
    let line = full_line (time_of found) level message in
    let written = length line in
    let size = if ltb written logger_max_line_length then written else logger_max_line_length - 1 in
    (take size line, s')
