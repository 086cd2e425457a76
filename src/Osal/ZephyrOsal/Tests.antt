-- ===== src/Osal/ZephyrOsal/Tests.antt =====
-- The creations on Zephyr at concrete inputs.
use stm32f407vgt.Base.{◌≡◌, refl, Bool, true, false, none, some}
use stm32f407vgt.Base.Programs.{World, run, Follows}
use stm32f407vgt.Core.Threads.{OsalTaskConfig, blinky_task_entry, high}
use stm32f407vgt.Osal.ZephyrOsal.{
  Op, Ans, stack_alloc, malloc, thread_create, malloc_msgq, malloc_mutex, uptime, msgq_init,
  mutex_init, msgq_put, msgq_get, mutex_lock, free, create_msgq, osal_queue_create,
  osal_mutex_create, osal_task_create,
}
use stm32f407vgt.Osal.ZephyrOsal.Memory.{
  NoQueue, nothing, queue, mutex, objects, Holds, Takes, creations_keep_what_they_answer,
}

-- A heap of one block at address 7, free where the state is true, and too small for a queue's buffer.
abbrev small : World Op Ans Bool
small (stack_alloc size) s = (none, s)
small (malloc size) s = (none, s)
small (thread_create slot stack size priority) s = (some slot, s)
small malloc_msgq true = (some 7, false)
small malloc_msgq false = (none, false)
small malloc_mutex true = (some 7, false)
small malloc_mutex false = (none, false)
small uptime s = (0, s)
small (msgq_init q size count) s = (false, s)
small (mutex_init m) s = (true, s)
small (msgq_put q item timeout) s = (false, s)
small (msgq_get q timeout) s = (none, s)
small (mutex_lock m timeout) s = (true, s)
small (free a) s = (tt, true)
small _ s = (tt, s)

given_back : run small (osal_queue_create 4 16 true) true ≡ (none, true)
unfolding osal_queue_create create_msgq
given_back = refl

abbrev blinky : OsalTaskConfig
blinky = record {
  name = "Blinky";
  entry = blinky_task_entry;
  stack_size_bytes = 1024;
  priority = high;
}

creations_keep_what_they_answer_example :
    Follows objects (osal_queue_create 4 16 true) nothing (Holds (NoQueue 4 16 true) (queue 16 4))
    × Follows objects (osal_mutex_create true) nothing (Holds (◌≡◌ {A = Bool} true false) mutex)
    × Follows objects (osal_task_create 9 (some blinky)) nothing (Takes 9 (some blinky))
creations_keep_what_they_answer_example = creations_keep_what_they_answer 4 16 true 9 (some blinky)
