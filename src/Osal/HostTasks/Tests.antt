-- ===== src/Osal/HostTasks/Tests.antt =====
-- The tasks and points in time of the host at concrete inputs.
use stm32f407vgt.Base.{◌+◌, ◌*◌, ◌<◌, ◌≡◌, refl, Bool, true, false, none, some, add32, arith}
use stm32f407vgt.Base.Programs.{World, run, Follows}
use stm32f407vgt.Core.Threads.{OsalTaskConfig, blinky_task_entry, high}
use stm32f407vgt.Osal.HostTasks.{
  Timespec, slept, Op, Ans, now, malloc_task, malloc_mutex, own_task, malloc, thread_create,
  set_policy_rr, set_param, trylock, lock_forever, timedlock, nanosleep, prefer_round_robin,
  create_again, finish_create, create_thread, osal_task_create, osal_posix_deadline,
  osal_get_time_ms,
}
use stm32f407vgt.Osal.HostTasks.Creation.{making, Made, none_yet, osal_task_create-Made}
use stm32f407vgt.Osal.HostTasks.Deadline.{
  nanos, osal_posix_deadline_lem, osal_get_time_ms-osal_posix_deadline,
}

abbrev noon : Timespec
noon = record { sec = 5000000; nsec = 999000000 }

-- Without a permission for SCHED_RR: the first attempt of a thread fails, and the second succeeds.
abbrev plain : World Op Ans Bool
plain now s = (noon, s)
plain malloc_task s = (some 7, s)
plain malloc_mutex s = (none, s)
plain own_task s = (none, s)
plain (malloc size) s = (none, s)
plain thread_create s = (s, true)
plain set_policy_rr s = (true, s)
plain (set_param p) s = (true, s)
plain (trylock m) s = (true, s)
plain (lock_forever m) s = (true, s)
plain (timedlock m deadline) s = (false, s)
plain (nanosleep t) s = (slept, s)
plain op s = (tt, s)

abbrev blinky : OsalTaskConfig
blinky = record {
  name = "Blinky";
  entry = blinky_task_entry;
  stack_size_bytes = 1024;
  priority = high;
}

second_attempt : (run plain (osal_task_create (some blinky)) false).0 ≡ some 7
unfolding osal_task_create create_thread prefer_round_robin create_again finish_create
second_attempt = refl

osal_task_create-Made_example :
    Follows making (osal_task_create (some blinky)) none_yet (Made (some blinky))
osal_task_create-Made_example = osal_task_create-Made (some blinky)

osal_posix_deadline_lem_case :
    (nanos (osal_posix_deadline noon 1500) ≡ nanos noon + 1500 * 1000000)
    × ((osal_posix_deadline noon 1500).nsec < 1000000000)
osal_posix_deadline_lem_case = osal_posix_deadline_lem noon 1500 (omega arith)

osal_get_time_ms-osal_posix_deadline_case :
    osal_get_time_ms (osal_posix_deadline noon 1500) ≡ add32 (osal_get_time_ms noon) 1500
osal_get_time_ms-osal_posix_deadline_case =
    osal_get_time_ms-osal_posix_deadline noon 1500 (omega arith)
