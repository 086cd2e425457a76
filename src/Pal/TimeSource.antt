-- ===== src/Pal/TimeSource.antt =====
-- targets/freertos/pal/src/time_source_impl.c, which the other targets repeat: the clock of a target
-- without a calendar, which counts from the start.
pub mod Uptime
use stm32f407vgt.Base.{ℕ, ◌/◌, ◌%◌, Bool, true, false, Option, some}
use stm32f407vgt.Glue.Time.{DateTime, PalTimeSource}

-- `osal_get_time_ms` is the argument.
unfoldable pub uptime : ℕ → DateTime
uptime ms =
    let total_seconds = ms / 1000 in
    record {
      has_date = false;
      year = 0;
      month = 0;
      day = 0;
      hours = (total_seconds / 3600) % 24;
      minutes = (total_seconds / 60) % 60;
      seconds = total_seconds % 60;
    }

-- `time_source_init`, over a state that has the clock.
pub time_source : {S : Type 0} → (S → ℕ) → PalTimeSource S
time_source clock = record { get = λ s. (some (uptime (clock s)), s) }
