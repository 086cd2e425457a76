-- ===== src/Core/Logger/Tests.antt =====
-- A log line at a concrete time.
use stm32f407vgt.Base.{ℕ, ◌≤◌, ◌≡◌, refl, true, some, [], ◌∷◌, ◌++◌, length, take, arith}
use stm32f407vgt.Glue.Time.{DateTime, PalTimeSource}
use stm32f407vgt.Core.Logger.{event, log}
use stm32f407vgt.Core.Logger.Lines.{IsPrintable, header, line_end, log_dated, log_bound}

abbrev noon : DateTime
noon = record {
  has_date = true;
  year = 2026;
  month = 3;
  day = 4;
  hours = 12;
  minutes = 30;
  seconds = 59;
}

noon-IsPrintable : IsPrintable noon
noon-IsPrintable = record {
  year = omega arith;
  month = omega arith;
  day = omega arith;
  hours = omega arith;
  minutes = omega arith;
  seconds = omega arith;
}

abbrev clock : PalTimeSource ℕ
clock = record { get = λ n. (some noon, n) }

log_dated_example :
    log clock 7 event (72 ∷ 105 ∷ [])
    ≡ (header noon event ++ take 65 ((72 ∷ 105 ∷ []) ++ line_end), 7)
log_dated_example = log_dated clock 7 7 noon event (72 ∷ 105 ∷ []) refl noon-IsPrintable refl

log_bound_case : length (log clock 7 event (72 ∷ 105 ∷ [])).0 ≤ 95
log_bound_case = log_bound clock 7 event (72 ∷ 105 ∷ [])
