-- ===== src/Pal/TimeSource/Uptime.antt =====
-- The time of day of the uptime clock.
use stm32f407vgt.Base.{ℕ, ◌+◌, ◌*◌, ◌/◌, ◌<◌, ◌≡◌, arith}
use stm32f407vgt.Pal.TimeSource.{uptime}

pub uptime_lem :
    (ms : ℕ)
    → ((uptime ms).hours < 24)
      × ((uptime ms).minutes < 60)
      × ((uptime ms).seconds < 60)
      × ((ms / 86400000) * 86400
            + (uptime ms).hours * 3600
            + (uptime ms).minutes * 60
            + (uptime ms).seconds
          ≡ ms / 1000)
unfolding uptime
uptime_lem ms = (omega arith, omega arith, omega arith, omega arith)
