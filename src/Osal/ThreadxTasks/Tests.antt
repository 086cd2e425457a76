-- ===== src/Osal/ThreadxTasks/Tests.antt =====
-- The tasks of ThreadX over small worlds.
use stm32f407vgt.Base.{ℕ, suc, ◌≡◌, refl, true, none, some, [], ◌∷◌, replicate, arith}
use stm32f407vgt.Base.Programs.{World, run, Follows}
use stm32f407vgt.Core.Threads.{OsalTaskConfig, blinky_task_entry, high}
use stm32f407vgt.Osal.ThreadxTasks.{
  Op, Ans, byte_allocate, mutex_create, mutex_get, malloc, thread_create, osal_task_create,
  osal_mutex_create,
}
use stm32f407vgt.Osal.ThreadxTasks.Slots.{
  Pool, allocation, Leaves, osal_task_create-Leaves, create_all, Provides, registry_starts,
}

-- Blocks are numbered as they are allocated.
abbrev roomy : World Op Ans ℕ
roomy (byte_allocate size) n = (some n, suc n)
roomy (thread_create slot args stack size priority) n = (true, n)
roomy (mutex_create slot) n = (true, n)
roomy (mutex_get m timeout) n = (true, n)
roomy (malloc size) n = (some n, suc n)
roomy op n = (tt, n)

abbrev blinky : OsalTaskConfig
blinky = record {
  name = "Blinky";
  entry = blinky_task_entry;
  stack_size_bytes = 1024;
  priority = high;
}

roomy-Provides : Provides roomy
roomy-Provides = record {
  allocates = λ size n. (n, refl);
  creates = λ slot args stack size priority n. refl;
}

ten_slots : (run roomy (osal_task_create 10 (some blinky)) 7).0 ≡ (none, 10)
unfolding osal_task_create
ten_slots = refl

four_mutexes : (run roomy (osal_mutex_create 4 true) 7).0 ≡ (none, 4)
unfolding osal_mutex_create
four_mutexes = refl

-- One block is held for something else.
abbrev one_block : Pool
one_block = record { held = 8 ∷ []; threads = []; refusals = 0 }

osal_task_create-Leaves_example :
    Follows allocation
      (osal_task_create 3 (some blinky))
      one_block
      (Leaves 3 (some blinky) one_block)
osal_task_create-Leaves_example = osal_task_create-Leaves 3 (some blinky) one_block

registry_starts_example : (run roomy (create_all 0 (replicate 10 blinky)) 0).0 ≡ true
registry_starts_example = registry_starts roomy roomy-Provides (replicate 10 blinky) 0 (omega arith)
