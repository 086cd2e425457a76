-- ===== src/Osal/HostTasks/Deadline.antt =====
-- Points in time of the host.
use stm32f407vgt.Base.{ℕ, ◌+◌, ◌*◌, ◌<◌, ◌≡◌, add32, arith}
use stm32f407vgt.Osal.HostTasks.{Timespec, osal_posix_deadline, osal_get_time_ms}

abbrev pub nanos : Timespec → ℕ
nanos t = t.sec * 1000000000 + t.nsec

-- The deadline of a wait is a well-formed point in time, exactly the timeout after the clock's reading.
pub osal_posix_deadline_lem :
    (t : Timespec) (timeout : ℕ)
    → t.nsec < 1000000000
    → (nanos (osal_posix_deadline t timeout) ≡ nanos t + timeout * 1000000)
      × ((osal_posix_deadline t timeout).nsec < 1000000000)
unfolding osal_posix_deadline
osal_posix_deadline_lem t timeout h = ground arith

-- The millisecond clock counts in whole milliseconds of the clock that the deadlines are set by: at the
-- deadline it reads the timeout more than at the start of the wait, modulo its wrap.
pub osal_get_time_ms-osal_posix_deadline :
    (t : Timespec) (timeout : ℕ)
    → t.nsec < 1000000000
    → osal_get_time_ms (osal_posix_deadline t timeout) ≡ add32 (osal_get_time_ms t) timeout
unfolding osal_get_time_ms osal_posix_deadline
osal_get_time_ms-osal_posix_deadline t timeout h = ground arith
