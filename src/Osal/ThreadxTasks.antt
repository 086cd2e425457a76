-- ===== src/Osal/ThreadxTasks.antt =====
-- targets/threadx/osal/src/osal.c: tasks and mutexes, as the calls that they make of ThreadX. The
-- counters of the slots in use are arguments and come back with the answer.
pub mod Slots
mod Tests
use stm32f407vgt.Base.{
  ℕ, zero, suc, ◌+◌, ◌*◌, ◌%◌, ◌^◌, Bool, true, false, ◌&&◌, Option, none, some, List, [], ◌∷◌, leb,
  if◌then◌else◌,
}
use stm32f407vgt.Base.Programs.{Program, done, call, ◌>>=◌, ◌>>◌}
use stm32f407vgt.Core.Threads.{OsalTaskPriority, low, normal, high, OsalTaskConfig}
use stm32f407vgt.Osal.ThreadxQueue.{Ticks, ms_to_ticks}

abbrev pub max_osal_tasks : ℕ
max_osal_tasks = 10

abbrev pub max_osal_mutexes : ℕ
max_osal_mutexes = 4

-- `byte_allocate` answers an address, and `thread_create` and `mutex_create` whether ThreadX returned
-- TX_SUCCESS, as `mutex_get` does. A thread is created in a slot, with an entry argument, a stack and its size, and a
-- priority.
pub data Op : Type 0 where
  byte_allocate byte_release mutex_create mutex_put malloc free : ℕ → Op
  terminate_self : Op
  mutex_get : ℕ → Ticks → Op
  sleep : Ticks → Op
  thread_create : ℕ → ℕ → ℕ → ℕ → ℕ → Op

abbrev pub Ans : Op → Type 0
Ans (byte_allocate size) = Option ℕ
Ans (malloc size) = Option ℕ
Ans (mutex_get m timeout) = Bool
Ans (mutex_create slot) = Bool
Ans (thread_create slot args stack size priority) = Bool
Ans _ = Unit {0}

abbrev pub Threadx : Type 0 → Type 0
Threadx A = Program Op Ans A

abbrev pub ask : (op : Op) → Threadx (Ans op)
ask op = call op done

-- A lower number is more urgent.
abbrev pub osal_priority_to_threadx_priority : OsalTaskPriority → ℕ
osal_priority_to_threadx_priority high = 8
osal_priority_to_threadx_priority normal = 12
osal_priority_to_threadx_priority low = 16

-- sizeof(TaskTrampolineArgs): two pointers.
abbrev pub trampoline_args_size : ℕ
trampoline_args_size = 8

-- The slot is the handle.
abbrev pub Created : Type 0
Created = Option ℕ × ℕ

unfoldable pub start_thread : ℕ → OsalTaskConfig → ℕ → ℕ → Threadx Created
start_thread used config stack args = do
  started ← ask (
      thread_create used args stack config.stack_size_bytes
        (osal_priority_to_threadx_priority config.priority))
  elim started [
    | true ↦ done (some used, suc used)
    | false ↦ do ask (byte_release args); ask (byte_release stack); done (none, used)
  ]

unfoldable pub allocate_and_start : ℕ → OsalTaskConfig → Threadx Created
allocate_and_start used config = do
  allocated ← ask (byte_allocate config.stack_size_bytes)
  elim allocated [
    | none ↦ done (none, used)
    | some stack ↦ do
      more ← ask (byte_allocate trampoline_args_size)
      elim more [
        | none ↦ do ask (byte_release stack); done (none, used)
        | some args ↦ start_thread used config stack args
      ]
  ]

-- `none` is a NULL config or one with a NULL entry.
unfoldable pub osal_task_create : ℕ → Option OsalTaskConfig → Threadx Created
osal_task_create used none = done (none, used)
osal_task_create used (some config) =
    if leb max_osal_tasks used then done (none, used) else allocate_and_start used config

-- `true` is a pointer for the handle.
unfoldable pub osal_mutex_create : ℕ → Bool → Threadx Created
osal_mutex_create used false = done (none, used)
osal_mutex_create used true = if leb max_osal_mutexes used then done (none, used) else do
  made ← ask (mutex_create used)
  if made then done (some used, suc used) else done (none, used)

-- `osal_get_time_ms` at 10 ms a tick, of the tick counter of ThreadX.
abbrev pub osal_get_time_ms : ℕ → ℕ
osal_get_time_ms ticks = (ticks * 10) % 2 ^ 32

pub osal_mutex_lock : ℕ → ℕ → Threadx Bool
osal_mutex_lock m timeout_ms = ask (mutex_get m (ms_to_ticks timeout_ms))

pub osal_mutex_unlock : ℕ → Threadx (Unit {0})
osal_mutex_unlock m = ask (mutex_put m)

pub osal_delay_ms : ℕ → Threadx (Unit {0})
osal_delay_ms ms = ask (sleep (ms_to_ticks ms))

pub osal_task_exit : Threadx (Unit {0})
osal_task_exit = ask terminate_self

pub osal_malloc : ℕ → Threadx (Option ℕ)
osal_malloc size = ask (malloc size)

pub osal_free : ℕ → Threadx (Unit {0})
osal_free address = ask (free address)
