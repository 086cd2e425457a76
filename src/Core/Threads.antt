-- ===== src/Core/Threads.antt =====
-- app/src/core/app_threads.c: the registry of threads and their start. `entries` is the list of the
-- entries in use, so `count` is its length.
pub mod Started
mod Tests
use Prim.Native.String.{String}
use stm32f407vgt.Base.{
  ℕ, suc, ◌+◌, Bool, true, false, ◌&&◌, Option, none, some, List, [], ◌∷◌, ◌++◌, length, leb,
  if◌then◌else◌,
}
use stm32f407vgt.Diagnostics.TaskTrace.{Table, register}

abbrev pub app_thread_registry_capacity : ℕ
app_thread_registry_capacity = 10

pub data OsalTaskPriority : Type 0 where
  low normal high : OsalTaskPriority

-- The functions that the application starts as tasks; `given` is a pointer in AppDependencies.
pub data Entry : Type 0 where
  blinky_task_entry storage_service_task_entry client_task_happy_path_entry : Entry
  client_task_queue_timeout_entry client_task_late_completion_entry : Entry
  client_task_aba_isolation_entry producer_task_entry waiter_task_entry : Entry
  given : ℕ → Entry

-- `context`, which each entry gets from its own module, is left out.
pub record OsalTaskConfig : Type 0 where
  pub name : String
  pub entry : Entry
  pub stack_size_bytes : ℕ
  pub priority : OsalTaskPriority

abbrev pub Registry : Type 0
Registry = List OsalTaskConfig

abbrev pub init : Registry
init = []

unfoldable pub add : Registry → OsalTaskConfig → Bool × Registry
add registry config =
    if leb app_thread_registry_capacity (length registry)
    then (false, registry)
    else (true, registry ++ (config ∷ []))

-- `created` holds the answer of `osal_task_create` to the `i`-th entry, and `clock` the time at which
-- its registration with the task table reads the clock.
unfoldable pub start_all : (ℕ → Bool) → (ℕ → ℕ) → ℕ → Registry → Table → Bool × Table
start_all created clock i [] ts = (true, ts)
start_all created clock i (config ∷ configs) ts =
    let ts1 = if created i then register config.name (clock i) ts else ts in
    let (rest, ts2) = start_all created clock (suc i) configs ts1 in (created i && rest, ts2)
